-- ===== src/Driver.antt =====
-- cedrus-v4l2/cedrus.c and cedrus_context.c: the life of a job, from its run to its end in the interrupt
-- or in the watchdog. V4L2's m2m device is outside: its current context is set before it runs a job and
-- is cleared when the job is finished. So is the work queue: a delayed work is pending until it is
-- cancelled or starts to run.
pub mod Once
pub mod Lost
pub mod Power
pub mod Tests
use h618_vpu_port.Base.{ℕ, List, ◌∷◌, Bool, true, false, Option, none, some, Ret, ok, err, ◌≡◌}
use h618_vpu_port.Device.Regs.{IrqStatus}

-- VB2_BUF_STATE_DONE and VB2_BUF_STATE_ERROR
pub data BufState : Type 0 where
  buf_done buf_error : BufState

-- watchdog_work
pub data Work : Type 0 where
  idle pending running : Work

-- A context is a number. `run` and `finish` are the start and the end of a job.
pub data Event : Type 0 where
  run trigger : ℕ → Event
  finish : ℕ → BufState → Event
  irq_disable irq_clear : ℕ → Event
  reset : Event

-- The events, the last one first. `dec_active` and `enc_active` are ctx_active of the two processors.
pub record Driver : Type 0 where
  pub current : Option ℕ
  pub work : Work
  pub dec_active : Option ℕ
  pub enc_active : Option ℕ
  pub events : List Event

pub data IrqReturn : Type 0 where
  irq_none irq_handled : IrqReturn

pub job_finish : ℕ → BufState → Driver → Driver
job_finish ctx state d = record d { current = none; events = finish ctx state ∷ d.events }

pub active_update : Bool → ℕ → Driver → Driver
active_update true ctx d = record d { dec_active = some ctx }
active_update false ctx d = record d { enc_active = some ctx }

-- The results of preparing the engine's job, of the two formats and of configuring the job: the first
-- that fails.
pub first_error : Ret → Ret → Ret → Ret → Ret
first_error (err e) coded picture configure = err e
first_error ok (err e) picture configure = err e
first_error ok ok (err e) configure = err e
first_error ok ok ok configure = configure

job_start : Bool → ℕ → Ret → Driver → Ret × Driver
job_start decoder ctx (err e) d = (err e, job_finish ctx buf_error d)
job_start decoder ctx ok d =
    let d = active_update decoder ctx d in
    (ok, record d { work = pending; events = trigger ctx ∷ d.events })

-- With the context made current by m2m.
pub job_run : Bool → ℕ → Ret → Ret → Ret → Ret → Driver → Ret × Driver
job_run decoder ctx prepare coded picture configure d =
    job_start decoder ctx (first_error prepare coded picture configure)
      (record d { current = some ctx; events = run ctx ∷ d.events })

pub irq_disable_clear : ℕ → Driver → Driver
irq_disable_clear ctx d = record d { events = irq_clear ctx ∷ irq_disable ctx ∷ d.events }

quiet : Option ℕ → Driver → Driver
quiet none d = d
quiet (some ctx) d = irq_disable_clear ctx d

pub irq_spurious : Driver → Driver
irq_spurious d = quiet d.enc_active (quiet d.dec_active d)

-- On the engine's status, with the work cancelled.
irq_job : ℕ → IrqStatus → Driver → IrqReturn × Driver
irq_job ctx IrqStatus.none d = (irq_none, d)
irq_job ctx IrqStatus.error d = (irq_handled, job_finish ctx buf_error (irq_disable_clear ctx d))
irq_job ctx IrqStatus.success d = (irq_handled, job_finish ctx buf_done (irq_disable_clear ctx d))

irq_cancelled : Option ℕ → IrqStatus → Driver → IrqReturn × Driver
irq_cancelled none status d = (irq_none, irq_spurious d)
irq_cancelled (some ctx) status d = irq_job ctx status d

irq_work : Work → IrqStatus → Driver → IrqReturn × Driver
irq_work idle status d = (irq_handled, irq_spurious d)
irq_work running status d = (irq_handled, irq_spurious d)
irq_work pending status d = irq_cancelled d.current status (record d { work = idle })

pub irq : IrqStatus → Driver → IrqReturn × Driver
irq status d = irq_work d.work status d

watch : Option ℕ → Driver → Driver
watch none d = d
watch (some ctx) d = job_finish ctx buf_error (record d { events = reset ∷ d.events })

-- The work's function, at whose end the work is idle again.
pub watchdog : Driver → Driver
watchdog d = watch d.current (record d { work = idle })

-- What happens to the driver: m2m runs a job while it has none, an interrupt arrives at any time, the
-- two seconds pass, and the work that has started comes to its end.
pub data Step : Driver → Driver → Type 0 where
  step_run :
      (decoder : Bool) (ctx : ℕ) (prepare coded picture configure : Ret) (d : Driver)
      → d.current ≡ none
      → Step d (job_run decoder ctx prepare coded picture configure d).1
  step_irq : (status : IrqStatus) (d : Driver) → Step d (irq status d).1
  step_expire : (d : Driver) → d.work ≡ pending → Step d (record d { work = running })
  step_watchdog : (d : Driver) → d.work ≡ running → Step d (watchdog d)

pub data Reach : Driver → Driver → Type 0 where
  here : (d : Driver) → Reach d d
  then_step : (c d e : Driver) → Reach c d → Step d e → Reach c e
