-- ===== src/Tests/Timer.antt =====
-- The timer's callback, undisturbed and under a cleanup.
use icon_hwm_controller.Prelude.{◌≡◌, ◌≢◌, refl}
use icon_hwm_controller.Status.{undefined}
use icon_hwm_controller.Controller.Lifecycle.{update, on_activate}
use icon_hwm_controller.Controller.Lifecycle.Stages.{
  Stage, configured as by_configure, activated, cycled,
}
use icon_hwm_controller.Controller.Lifecycle.Timer.{
  resting, saw_runtime, begin, finish, Reach, start, begins, moves, Undisturbed, calm_callback,
  cleanup_race,
}
use icon_hwm_controller.Tests.Plugin.{
  settings, working, host, configured, working_run, cleaned, cleanup_run,
}

-- Configured.
inactive_run : Reach working host settings configured Stage.inactive resting
inactive_run = moves start (by_configure working_run)

-- The callback begins, and the controller is activated and runs a cycle under it.
called : Reach working host settings configured Stage.active saw_runtime
unfolding begin update on_activate
called = moves (moves (begins inactive_run refl) activated) (cycled 10 2)

called-Undisturbed : Undisturbed working host called
unfolding called inactive_run
called-Undisturbed = (((tt, tt), tt), tt)

calm_callback_example : finish working configured saw_runtime ≢ undefined
calm_callback_example = calm_callback working host called called-Undisturbed

cleanup_race_example :
    Reach working host settings cleaned Stage.unconfigured saw_runtime
    × (finish working cleaned saw_runtime ≡ undefined)
cleanup_race_example = cleanup_race working host inactive_run cleanup_run
