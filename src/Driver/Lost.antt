-- ===== src/Driver/Lost.antt =====
-- An interrupt that the engine does not own, in the middle of a job.
use mathlib.Core.Path.{subst}
use h618_vpu_port.Base.{ℕ, ◌≡◌, ◌≢◌, refl, ◌∙◌, Option, none, some, arith}
use h618_vpu_port.Device.Regs.{IrqStatus}
use h618_vpu_port.Driver.{
  Driver, idle, pending, Step, step_run, step_irq, step_expire, step_watchdog, Reach, here,
  then_step, irq, irq_work, irq_cancelled, irq_job, irq_spurious, quiet, irq_disable_clear,
}

-- The job of `ctx` runs, and the watchdog is off.
abbrev pub Lost : ℕ → Driver → Type 0
Lost ctx d = (d.current ≡ some ctx) × (d.work ≡ idle)

quiet_keeps :
    (a : Option ℕ) (d : Driver) → ((quiet a d).current ≡ d.current) × ((quiet a d).work ≡ d.work)
unfolding quiet irq_disable_clear
quiet_keeps none d = (refl, refl)
quiet_keeps (some a) d = (refl, refl)

irq_spurious_keeps :
    (d : Driver) → ((irq_spurious d).current ≡ d.current) × ((irq_spurious d).work ≡ d.work)
unfolding irq_spurious
irq_spurious_keeps d =
    let a = quiet_keeps d.dec_active d in
    let b = quiet_keeps d.enc_active (quiet d.dec_active d) in (b.0 ∙ a.0, b.1 ∙ a.1)

-- The interrupt of an idle watchdog is spurious.
irq_idle : (status : IrqStatus) (d : Driver) → d.work ≡ idle → (irq status d).1 ≡ irq_spurious d
unfolding irq irq_work
irq_idle status d h = rw h refl

some-not-none : (ctx : ℕ) (a : Option ℕ) → a ≡ some ctx → a ≢ none
some-not-none ctx a h k = grind arith

step_stays-Lost : (ctx : ℕ) (d e : Driver) → Step d e → Lost ctx d → Lost ctx e
step_stays-Lost ctx _ _ (step_run decoder c p f q g d n) l =
    elim (some-not-none ctx d.current l.0 n) [ ]
step_stays-Lost ctx _ _ (step_irq status d) l =
    let k = irq_spurious_keeps d in rw (irq_idle status d l.1) (k.0 ∙ l.0, k.1 ∙ l.1)
step_stays-Lost ctx _ _ (step_expire d w) l = grind arith
step_stays-Lost ctx _ _ (step_watchdog d w) l = grind arith

stays-Lost : (ctx : ℕ) (d e : Driver) → Reach d e → Lost ctx d → Lost ctx e
stays-Lost ctx _ _ (here d) l = l
stays-Lost ctx _ _ (then_step d m e r s) l = step_stays-Lost ctx m e s (stays-Lost ctx d m r l)

irq_unowned :
    (ctx : ℕ) (d : Driver)
    → d.current ≡ some ctx
    → d.work ≡ pending
    → (irq IrqStatus.none d).1 ≡ record d { work = idle }
unfolding irq irq_work irq_cancelled irq_job
irq_unowned ctx d c w = rw (w, c) refl

-- While a job waits for its end under the watchdog, one interrupt for which the engine reports no status
-- switches the watchdog off: after it, over any further interrupts, whatever their status, the job stays
-- the current one with the watchdog off, so nothing finishes it and no other job is run.
pub irq_loses_job :
    (ctx : ℕ) (d e : Driver)
    → d.current ≡ some ctx
    → d.work ≡ pending
    → Reach (irq IrqStatus.none d).1 e
    → (e.current ≡ some ctx) × (e.work ≡ idle)
irq_loses_job ctx d e c w r =
    let s : Reach (record d { work = idle }) e = subst (λ x. Reach x e) (irq_unowned ctx d c w) r in
    stays-Lost ctx (record d { work = idle }) e s (c, refl)
