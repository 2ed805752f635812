-- ===== src/Driver/Power.antt =====
-- cedrus-v4l2/cedrus.c: suspend and resume. A clock is the number of times it is enabled; a call of the
-- reset or the clock framework that fails changes nothing.
use h618_vpu_port.Base.{
  ℕ, ◌+◌, ◌-◌, ◌≡◌, ◌⊎◌, inl, inr, refl, Bool, true, false, Ret, ok, err, Errno, arith,
}

pub record Power : Type 0 where
  pub reset_asserted : Bool
  pub clock_ahb : ℕ
  pub clock_mod : ℕ
  pub clock_ram : ℕ

pub suspend : Power → Power
suspend p = record {
  reset_asserted = true;
  clock_ahb = p.clock_ahb - 1;
  clock_mod = p.clock_mod - 1;
  clock_ram = p.clock_ram - 1;
}

error_reset : Power → Power
error_reset p = record p { reset_asserted = true }

error_clock_ahb : Power → Power
error_clock_ahb p = error_reset (record p { clock_ahb = p.clock_ahb - 1 })

error_clock_mod : Power → Power
error_clock_mod p = error_clock_ahb (record p { clock_mod = p.clock_mod - 1 })

-- With the results of the reset and of enabling the three clocks, in the order of the calls.
pub resume : Ret → Ret → Ret → Ret → Power → Ret × Power
resume (err e) ahb mclk ram p = (err e, p)
resume ok (err e) mclk ram p = (err e, error_reset (record p { reset_asserted = false }))
resume ok ok (err e) ram p =
    (err e, error_clock_ahb (record p { reset_asserted = false; clock_ahb = p.clock_ahb + 1 }))
resume ok ok ok (err e) p = (
  err e,
  error_clock_mod (record p {
    reset_asserted = false;
    clock_ahb = p.clock_ahb + 1;
    clock_mod = p.clock_mod + 1;
  }),
)
resume ok ok ok ok p = (
  ok,
  record {
    reset_asserted = false;
    clock_ahb = p.clock_ahb + 1;
    clock_mod = p.clock_mod + 1;
    clock_ram = p.clock_ram + 1;
  },
)

-- From a device in reset, a resume that fails, wherever it fails, leaves the device as it was, and a
-- suspend after one that succeeds does.
pub resume_balanced :
    (reset ahb mclk ram : Ret) (p : Power)
    → p.reset_asserted ≡ true
    → let r = resume reset ahb mclk ram p in
      ((r.0 ≡ ok) × (r.1.reset_asserted ≡ false) × (suspend r.1 ≡ p))
      ⊎ (((e : Errno) × (r.0 ≡ err e)) × (r.1 ≡ p))
unfolding resume suspend error_reset error_clock_ahb error_clock_mod
resume_balanced (err e) ahb mclk ram p h = inr ((e, refl), refl)
resume_balanced ok (err e) mclk ram p h = inr ((e, refl), ground arith)
resume_balanced ok ok (err e) ram p h = inr ((e, refl), ground arith)
resume_balanced ok ok ok (err e) p h = inr ((e, refl), ground arith)
resume_balanced ok ok ok ok p h = inl (refl, refl, ground arith)
