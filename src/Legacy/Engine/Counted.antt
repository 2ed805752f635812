-- ===== src/Legacy/Engine/Counted.antt =====
-- The references of the device against those of its files, and the clocks against the references.
use h618_vpu_port.Base.{
  ℕ, zero, suc, ◌+◌, ◌-◌, ◌^◌, ◌<◌, ◌≤◌, ◌≡◌, ◌⊎◌, inl, inr, refl, sym, Bool, true, false, ◌||◌,
  Bool-cases, Ret, ok, err, if◌then◌else◌, ◌==◌, List, [], ◌∷◌, ◌++◌, arith,
}
use mathlib.Core.Path.{subst}
use h618_vpu_port.Legacy.Engine.{
  Dev, File, error_state, error_reset, error_bus, error_mbus, enable_with, enable_hw_clk,
  disable_hw_clk, req_with, engine_req, engine_rel, suspend, resume_with, resume,
}

-- The references of all files.
abbrev pub total : List File → ℕ
total [] = 0
total (f ∷ fs) = f.engine_refs + total fs

pub total-append : (fs gs : List File) → total (fs ++ gs) ≡ total fs + total gs
total-append [] gs = omega arith
total-append (f ∷ fs) gs = omega (arith, total-append fs gs)

-- Each clock is enabled `n` times.
abbrev pub ClocksAt : ℕ → Dev → Type 0
ClocksAt n d = (d.bus_clk ≡ n) × (d.mbus_clk ≡ n) × (d.ve_clk ≡ n)

-- The clocks are enabled, once each, exactly while there are references.
abbrev pub IsClocked : Dev → Type 0
IsClocked d =
    ((0 < d.ref_count) × (d.clk_status ≡ true) × ClocksAt 1 d)
    ⊎ ((d.ref_count ≡ 0) × (d.clk_status ≡ false) × ClocksAt 0 d)

abbrev pub IsCounted : List File → Dev → Type 0
IsCounted fs d = (d.ref_count ≡ total fs) × IsClocked d

-- Clocks that were off are on when enabling succeeds, and off when it fails.
abbrev Enabled : ℕ → Ret × Dev → Type 0
Enabled n (ok, d) = (d.clk_status ≡ true) × ClocksAt 1 d × (d.ref_count ≡ n)
Enabled n (err e, d) = (d.clk_status ≡ false) × ClocksAt 0 d × (d.ref_count ≡ n)

enable_with-Enabled :
    (reset bus mbus ve : Ret) (d : Dev)
    → ClocksAt 0 d
    → Enabled d.ref_count (enable_with reset bus mbus ve d)
unfolding enable_with error_mbus error_bus error_reset error_state
enable_with-Enabled (err e) bus mbus ve d c = (refl, c, refl)
enable_with-Enabled ok (err e) mbus ve d c = (refl, c, refl)
enable_with-Enabled ok ok (err e) ve d c = (refl, (omega arith, omega arith, omega arith), refl)
enable_with-Enabled ok ok ok (err e) d c = (refl, (omega arith, omega arith, omega arith), refl)
enable_with-Enabled ok ok ok ok d c = (refl, (omega arith, omega arith, omega arith), refl)

enable-Enabled :
    (reset bus mbus ve : Ret) (n : ℕ) (d : Dev)
    → d.clk_status ≡ false
    → ClocksAt 0 d
    → d.ref_count ≡ n
    → Enabled n (enable_hw_clk reset bus mbus ve d)
unfolding enable_hw_clk
enable-Enabled reset bus mbus ve n d k c e =
    let x = enable_with-Enabled reset bus mbus ve d c in
    let y = subst (λ m. Enabled m (enable_with reset bus mbus ve d)) e x in
    subst (λ b. Enabled n (if b then (ok, d) else enable_with reset bus mbus ve d)) (sym k) y

-- After an operation on one file: the device counts what the file gained, and no more.
abbrev pub Moves : File → Dev → Ret × File × Dev → Type 0
Moves f d (r, f', d') = (d'.ref_count + f.engine_refs ≡ d.ref_count + f'.engine_refs) × IsClocked d'

first_req :
    (f : File) (d : Dev) (r : Ret × Dev)
    → d.ref_count ≡ 0
    → f.engine_refs ≡ 0
    → Enabled 1 r
    → Moves f d (req_with r f)
unfolding req_with
first_req f d (ok, d') z n e = (omega arith, inl (omega arith, e.0, e.1))
first_req f d (err x, d') z n e = (omega arith, inr (omega arith, e.0, e.1))

next_req :
    (f : File) (d' d : Dev)
    → d'.ref_count ≡ d.ref_count + 1
    → f.engine_refs ≤ d.ref_count
    → d.ref_count + 1 < 2 ^ 31
    → IsClocked d'
    → Moves f d (req_with (ok, d') f)
unfolding req_with
next_req f d' d e l s c = (omega arith, c)

pub disable-IsClocked :
    (d : Dev)
    → d.ref_count ≡ 0
    → d.clk_status ≡ true
    → ClocksAt 1 d
    → IsClocked (disable_hw_clk d) × ((disable_hw_clk d).ref_count ≡ d.ref_count)
unfolding disable_hw_clk
disable-IsClocked d z k c = rw k (inr (z, refl, (omega arith, omega arith, omega arith)), refl)

-- Fewer references, on clocks that run.
drop-IsClocked :
    (d : Dev) (n : ℕ)
    → d.clk_status ≡ true
    → ClocksAt 1 d
    → let d' = record d { ref_count = n } in
      let r = if n == 0 then disable_hw_clk d' else d' in IsClocked r × (r.ref_count ≡ n)
drop-IsClocked d zero k c = disable-IsClocked (record d { ref_count = 0 }) refl k c
drop-IsClocked d (suc n) k c =
    let e : (suc n == 0) ≡ false = ground arith in rw e (inl (omega arith, k, c), refl)

pub engine_rel-Moves :
    (interrupted : Bool) (f : File) (d : Dev) → IsClocked d → Moves f d (engine_rel interrupted f d)
unfolding engine_rel
engine_rel-Moves true f d c = (refl, c)
engine_rel-Moves false f d (inr (z, k, c)) =
    let e : (f.engine_refs == 0 || d.ref_count == 0) ≡ true = ground arith in
    rw e (refl, inr (z, k, c))
engine_rel-Moves false f d (inl (p, k, c)) = elim (Bool-cases (f.engine_refs == 0)) [
  | inl e ↦ rw e (refl, inl (p, k, c))
  | inr e ↦
      let z : (d.ref_count == 0) ≡ false = ground arith in
      let x = drop-IsClocked d (d.ref_count - 1) k c in rw (e, z) (ground arith, x.0)
]

pub engine_req-Moves :
    (interrupted : Bool) (reset bus mbus ve : Ret) (f : File) (d : Dev)
    → IsClocked d
    → f.engine_refs ≤ d.ref_count
    → d.ref_count + 1 < 2 ^ 31
    → Moves f d (engine_req interrupted reset bus mbus ve f d)
unfolding engine_req
engine_req-Moves true reset bus mbus ve f d c l s = (refl, c)
engine_req-Moves false reset bus mbus ve f d (inr (z, k, c)) l s =
    let e : (d.ref_count + 1 == 1) ≡ true = ground arith in
    let d' : Dev = record d { ref_count = d.ref_count + 1; last_min_freq = 0 } in
    rw e (
      first_req f d (enable_hw_clk reset bus mbus ve d') z (omega arith)
        (enable-Enabled reset bus mbus ve 1 d' k c (omega arith)))
engine_req-Moves false reset bus mbus ve f d (inl (p, k, c)) l s =
    let e : (d.ref_count + 1 == 1) ≡ false = ground arith in
    rw e (
      next_req f (record d { ref_count = d.ref_count + 1 }) d refl (omega arith) (omega arith)
        (inl (omega arith, k, c)))

-- Clocks that run are off after suspend.
suspend-off :
    (d : Dev)
    → d.clk_status ≡ true
    → ClocksAt 1 d
    → ((suspend d).clk_status ≡ false)
      × ClocksAt 0 (suspend d)
      × ((suspend d).ref_count ≡ d.ref_count)
unfolding suspend disable_hw_clk
suspend-off d k c = rw k (refl, (omega arith, omega arith, omega arith), refl)

resume_with-IsClocked :
    (n : ℕ) (r : Ret × Dev)
    → 0 < n
    → Enabled n r
    → (resume_with r).0 ≡ ok
    → IsClocked (resume_with r).1 × ((resume_with r).1.ref_count ≡ n)
unfolding resume_with
resume_with-IsClocked n (err x, d) p e h = let w : ⊥ = cc in elim w [ ]
resume_with-IsClocked n (ok, d) p e h = (inl (omega (arith, e.2), e.0, e.1), e.2)

-- Clocks that are off, and no reference: a suspend and the resume after it leave the device as it is.
sleep_idle :
    (reset bus mbus ve : Ret) (d : Dev)
    → d.clk_status ≡ false
    → d.ref_count ≡ 0
    → resume reset bus mbus ve (suspend d) ≡ (ok, d)
unfolding suspend disable_hw_clk resume
sleep_idle reset bus mbus ve d k z =
    let e : (d.ref_count == 0) ≡ true = ground arith in rw (k, e) refl

-- A resume that succeeds gives back the clocks that suspend took.
pub sleep-IsClocked :
    (reset bus mbus ve : Ret) (d : Dev)
    → IsClocked d
    → (resume reset bus mbus ve (suspend d)).0 ≡ ok
    → let d' = (resume reset bus mbus ve (suspend d)).1 in
      IsClocked d' × (d'.ref_count ≡ d.ref_count)
unfolding resume
sleep-IsClocked reset bus mbus ve d (inl (p, k, c)) h =
    let (s0, s1, s2) = suspend-off d k c in
    let z : ((suspend d).ref_count == 0) ≡ false = ground arith in
    let e = enable-Enabled reset bus mbus ve d.ref_count (suspend d) s0 s1 s2 in
    rw z (
      resume_with-IsClocked d.ref_count (enable_hw_clk reset bus mbus ve (suspend d)) p e
        (rw z at h))
sleep-IsClocked reset bus mbus ve d (inr (p, k, c)) h =
    subst (λ r. IsClocked r.1 × (r.1.ref_count ≡ d.ref_count))
      (sym (sleep_idle reset bus mbus ve d k p)) (inr (p, k, c), refl)
