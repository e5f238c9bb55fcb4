-- ===== src/Tests/Stages.antt =====
-- The plugin at work: its stages, and the clock that it shares with the module that it configures.
use icon_hwm_controller.Prelude.{◌≡◌, [], none, arith}
use icon_hwm_controller.Controller.Lifecycle.{update, on_activate}
use icon_hwm_controller.Controller.Lifecycle.Lifetime.{
  ErrorsFinalize, HasClock, clock_outlives_runtime,
}
use icon_hwm_controller.Controller.Lifecycle.Stages.{
  Stage, start, later, Reach, configured as by_configure, activated, cycled, Promise, stages_keep,
}
use icon_hwm_controller.Hwm.Transitions.{prepare, shutdown, clear_faults}
use icon_hwm_controller.SharedClock.{replay, sharing, ResetsOnce, transitions_share_clock}
use icon_hwm_controller.Tests.Requests.{healthy}
use icon_hwm_controller.Tests.Plugin.{
  settings, arm, arm_run, working, host, configured, working_run,
}

-- Configured and activated, with one cycle behind it.
at_work : Reach working host settings configured Stage.active
unfolding update on_activate
at_work = later (later (later start (by_configure working_run)) activated) (cycled 10 2)

stages_keep_example : Promise working host configured Stage.active
stages_keep_example = stages_keep working host (λ e. ground (arith, e)) at_work

at_work-ErrorsFinalize : ErrorsFinalize working host at_work
unfolding at_work
at_work-ErrorsFinalize = (((tt, tt), tt), tt)

clock_outlives_runtime_example :
    HasClock working host configured
    × (Stage.active ≡ Stage.unconfigured → configured.runtime ≡ none)
clock_outlives_runtime_example = clock_outlives_runtime working host at_work at_work-ErrorsFinalize

transitions_share_clock_example :
    ResetsOnce working 2 (prepare (sharing working 2 healthy) arm [])
    × ResetsOnce working 2 (shutdown (sharing working 2 healthy) arm [])
    × ((replay working 2 (clear_faults (sharing working 2 healthy) arm []).1).1 ≡ 2)
transitions_share_clock_example = transitions_share_clock working healthy configured arm 2 arm_run
