-- ===== src/Driver/Once.antt =====
-- Every job that runs is finished once.
use h618_vpu_port.Base.{
  ℕ, ◌+◌, ◌≡◌, ◌≢◌, ◌⊎◌, inl, inr, refl, ap, Bool, true, false, Option, none, some, Ret, ok, err,
  List, [], ◌∷◌, if◌then◌else◌, ◌==◌, arith,
}
use h618_vpu_port.Device.Regs.{IrqStatus, error, success}
use h618_vpu_port.Driver.{
  Driver, Work, idle, pending, running, Event, run, finish, BufState, job_finish, active_update,
  job_start, job_run, first_error, irq_disable_clear, quiet, irq_spurious, irq_job, irq_cancelled,
  irq_work, irq, watch, watchdog, Step, step_run, step_irq, step_expire, step_watchdog, Reach, here,
  then_step,
}

-- How often a context's job was run, and finished.
unfoldable pub runs : ℕ → List Event → ℕ
runs c [] = 0
runs c (run x ∷ es) = (if x == c then 1 else 0) + runs c es
runs c (e ∷ es) = runs c es

unfoldable pub finishes : ℕ → List Event → ℕ
finishes c [] = 0
finishes c (finish x s ∷ es) = (if x == c then 1 else 0) + finishes c es
finishes c (e ∷ es) = finishes c es

-- 1 where the context's job is the current one.
unfoldable pub busy : ℕ → Option ℕ → ℕ
busy c none = 0
busy c (some x) = if x == c then 1 else 0

-- The jobs of `c` are finished but the current one, and the watchdog is on only with a job.
abbrev pub IsBalanced : ℕ → Driver → Type 0
IsBalanced c d =
    (runs c d.events ≡ finishes c d.events + busy c d.current)
    × ((d.work ≡ idle) ⊎ (d.current ≢ none))

some-not-none : (x : ℕ) (a : Option ℕ) → a ≡ some x → a ≢ none
some-not-none x a h k = grind arith

quiet-IsBalanced : (c : ℕ) (a : Option ℕ) (d : Driver) → IsBalanced c d → IsBalanced c (quiet a d)
unfolding quiet irq_disable_clear runs finishes
quiet-IsBalanced c none d b = b
quiet-IsBalanced c (some a) d b = b

irq_spurious-IsBalanced : (c : ℕ) (d : Driver) → IsBalanced c d → IsBalanced c (irq_spurious d)
unfolding irq_spurious
irq_spurious-IsBalanced c d b =
    quiet-IsBalanced c d.enc_active _ (quiet-IsBalanced c d.dec_active d b)

-- A finished job was the current one.
job_finish-IsBalanced :
    (c x : ℕ) (s : BufState) (d : Driver)
    → d.current ≡ some x
    → d.work ≡ idle
    → runs c d.events ≡ finishes c d.events + busy c d.current
    → IsBalanced c (job_finish x s d)
unfolding job_finish runs finishes busy
job_finish-IsBalanced c x s d h w b =
    let k : busy c d.current ≡ busy c (some x) = ap (busy c) h in (ground arith, inl w)

job_start-IsBalanced :
    (c x : ℕ) (decoder : Bool) (r : Ret) (d : Driver)
    → d.current ≡ some x
    → d.work ≡ idle
    → runs c d.events ≡ finishes c d.events + busy c d.current
    → IsBalanced c (job_start decoder x r d).1
unfolding job_start active_update runs finishes
job_start-IsBalanced c x decoder (err e) d h w b = job_finish-IsBalanced c x _ d h w b
job_start-IsBalanced c x true ok d h w b = (b, inr (some-not-none x d.current h))
job_start-IsBalanced c x false ok d h w b = (b, inr (some-not-none x d.current h))

job_run-IsBalanced :
    (c x : ℕ) (decoder : Bool) (p f q g : Ret) (d : Driver)
    → d.current ≡ none
    → IsBalanced c d
    → IsBalanced c (job_run decoder x p f q g d).1
unfolding job_run runs finishes busy
job_run-IsBalanced c x decoder p f q g d n b =
    let i : d.work ≡ idle = grind arith in
    let k : busy c d.current ≡ 0 = ap (busy c) n in
    job_start-IsBalanced c x decoder (first_error p f q g)
      (record d { current = some x; events = run x ∷ d.events }) refl i (ground arith)

irq_cancelled-IsBalanced :
    (c : ℕ) (status : IrqStatus) (a : Option ℕ) (d : Driver)
    → d.current ≡ a
    → d.work ≡ idle
    → IsBalanced c d
    → IsBalanced c (irq_cancelled a status d).1
unfolding irq_cancelled irq_job irq_disable_clear runs finishes
irq_cancelled-IsBalanced c status none d h w b = irq_spurious-IsBalanced c d b
irq_cancelled-IsBalanced c IrqStatus.none (some x) d h w b = b
irq_cancelled-IsBalanced c error (some x) d h w b = job_finish-IsBalanced c x _ _ h w b.0
irq_cancelled-IsBalanced c success (some x) d h w b = job_finish-IsBalanced c x _ _ h w b.0

irq_work-IsBalanced :
    (c : ℕ) (status : IrqStatus) (w : Work) (d : Driver)
    → IsBalanced c d
    → IsBalanced c (irq_work w status d).1
unfolding irq_work
irq_work-IsBalanced c status idle d b = irq_spurious-IsBalanced c d b
irq_work-IsBalanced c status running d b = irq_spurious-IsBalanced c d b
irq_work-IsBalanced c status pending d b =
    irq_cancelled-IsBalanced c status d.current (record d { work = idle }) refl refl (b.0, inl refl)

watch-IsBalanced :
    (c : ℕ) (a : Option ℕ) (d : Driver)
    → d.current ≡ a
    → d.work ≡ idle
    → IsBalanced c d
    → IsBalanced c (watch a d)
unfolding watch runs finishes
watch-IsBalanced c none d h w b = b
watch-IsBalanced c (some x) d h w b = job_finish-IsBalanced c x _ _ h w b.0

step-IsBalanced : (c : ℕ) (d e : Driver) → Step d e → IsBalanced c d → IsBalanced c e
unfolding irq watchdog
step-IsBalanced c _ _ (step_run decoder x p f q g d n) b =
    job_run-IsBalanced c x decoder p f q g d n b
step-IsBalanced c _ _ (step_irq status d) b = irq_work-IsBalanced c status d.work d b
step-IsBalanced c _ _ (step_expire d w) b = (b.0, inr (grind arith))
step-IsBalanced c _ _ (step_watchdog d w) b =
    watch-IsBalanced c d.current (record d { work = idle }) refl refl (b.0, inl refl)

-- Over any sequence of jobs, failures, interrupts and watchdogs, expired ones included, a context's jobs
-- are finished exactly once each, but for the current job, which is not finished; and the watchdog is on
-- only while there is a current job.
pub Reach-IsBalanced : (c : ℕ) (d e : Driver) → IsBalanced c d → Reach d e → IsBalanced c e
Reach-IsBalanced c _ _ b (here d) = b
Reach-IsBalanced c _ _ b (then_step d m e r s) =
    step-IsBalanced c m e s (Reach-IsBalanced c d m b r)
