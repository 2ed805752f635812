-- ===== src/Driver/Tests.antt =====
-- A job of context 1 on the encoder.
use h618_vpu_port.Base.{true, ◌≡◌, refl, inl, none, some, ok, [], false}
use h618_vpu_port.Device.Regs.{IrqStatus, success}
use h618_vpu_port.Driver.{
  Driver, idle, job_run, job_start, first_error, active_update, irq, here, then_step, step_run,
  step_irq,
}
use h618_vpu_port.Driver.Once.{IsBalanced, runs, finishes, busy, Reach-IsBalanced}
use h618_vpu_port.Driver.Power.{Power}
use h618_vpu_port.Driver.Lost.{irq_loses_job}

abbrev driver : Driver
driver = record { current = none; work = idle; dec_active = none; enc_active = none; events = [] }

abbrev running_driver : Driver
running_driver = (job_run false 1 ok ok ok ok driver).1

Reach-IsBalanced_example : IsBalanced 1 (irq success running_driver).1
unfolding runs finishes busy
Reach-IsBalanced_example =
    Reach-IsBalanced 1 driver (irq success running_driver).1 (refl, inl refl)
      (then_step driver running_driver _
        (then_step driver driver _ (here driver) (step_run false 1 ok ok ok ok driver refl))
        (step_irq success running_driver))

irq_loses_job_example :
    let e = (irq success (irq IrqStatus.none running_driver).1).1 in
    (e.current ≡ some 1) × (e.work ≡ idle)
unfolding job_run job_start first_error active_update
irq_loses_job_example =
    irq_loses_job 1 running_driver (irq success (irq IrqStatus.none running_driver).1).1 refl refl (
      then_step (irq IrqStatus.none running_driver).1 _ _
        (here (irq IrqStatus.none running_driver).1)
        (step_irq success (irq IrqStatus.none running_driver).1))

abbrev power : Power
power = record { reset_asserted = true; clock_ahb = 0; clock_mod = 0; clock_ram = 0 }
