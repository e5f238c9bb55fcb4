-- ===== src/Tests/Threads.antt =====
-- Runs of the two threads of the vendor nodes.
use icon_hwm_controller.Prelude.{◌≡◌, refl, pos, true}
use icon_hwm_controller.Threads.{
  copied, initial, called, called-Reach, System, Reach, built, later, service_locks,
}
use icon_hwm_controller.Threads.Current.{AllPassed}
use icon_hwm_controller.Threads.Stale.{IsLate}
use icon_hwm_controller.Threads.Ur.{copies, ur_threads}
use icon_hwm_controller.Threads.Fanuc.{fanuc_threads}
use icon_hwm_controller.Threads.Khi.{khi_threads}
use icon_hwm_controller.Threads.Vendors.{published_was_current, ur_recovery-IsLate}
use icon_hwm_controller.Ur.Node.{
  start, robot_mode_callback, safety_mode_callback, program_running_callback, dispatch,
  publish_operational_status,
}
use icon_hwm_controller.Fanuc.Node.{robot_status_callback}
use icon_hwm_controller.Khi.Node.{error_info_callback}
use icon_hwm_controller.Ur.Status.{to_operational_status}
use icon_hwm_controller.OperationalStatus.{faulted}
use icon_hwm_controller.Tests.Nodes.Ur.{sm, rm}
use icon_hwm_controller.Tests.Nodes.Fanuc.{modes, stopped}
use icon_hwm_controller.Tests.Nodes.Khi.{overheated}

-- A safety mode comes in and is published, and a recovery has copied the status.
abbrev ur_called : System (ur_threads sm rm)
ur_called = called (ur_threads sm rm) (initial (ur_threads sm rm)) (safety_mode_callback 3)

abbrev ur_after : System (ur_threads sm rm)
ur_after = record ur_called { service = copied ur_called.node.operational_status }

ur_after-Reach : Reach (ur_threads sm rm) ur_after
unfolding publish_operational_status
ur_after-Reach =
    later (called-Reach (ur_threads sm rm) (safety_mode_callback 3) built refl)
      (service_locks (copies refl refl refl))

abbrev fanuc_after : System (fanuc_threads modes)
fanuc_after =
    called (fanuc_threads modes) (initial (fanuc_threads modes)) (robot_status_callback stopped)

fanuc_after-Reach : Reach (fanuc_threads modes) fanuc_after
fanuc_after-Reach = called-Reach (fanuc_threads modes) (robot_status_callback stopped) built refl

abbrev pub khi_after : System khi_threads
khi_after = called khi_threads (initial khi_threads) (error_info_callback overheated)

pub khi_after-Reach : Reach khi_threads khi_after
khi_after-Reach = called-Reach khi_threads (error_info_callback overheated) built refl

-- All three topics have a value, and the robot is in a protective stop.
abbrev pub ur_running : System (ur_threads sm rm)
ur_running = called (ur_threads sm rm) ur_called (robot_mode_callback (pos 7))

abbrev pub ur_stopped : System (ur_threads sm rm)
ur_stopped = called (ur_threads sm rm) ur_running (program_running_callback true)

pub ur_running-Reach : Reach (ur_threads sm rm) ur_running
ur_running-Reach =
    called-Reach (ur_threads sm rm) (robot_mode_callback (pos 7))
      (called-Reach (ur_threads sm rm) (safety_mode_callback 3) built refl) refl

ur_stopped-Reach : Reach (ur_threads sm rm) ur_stopped
ur_stopped-Reach =
    called-Reach (ur_threads sm rm) (program_running_callback true) ur_running-Reach refl

pub ur_stopped-faulted : ur_stopped.node.operational_status.state ≡ faulted
unfolding dispatch to_operational_status
ur_stopped-faulted = refl

published_was_current_example :
    AllPassed (ur_threads sm rm) ur_after-Reach ur_after.seen
    × AllPassed (fanuc_threads modes) fanuc_after-Reach fanuc_after.seen
    × AllPassed khi_threads khi_after-Reach khi_after.seen
published_was_current_example =
    published_was_current sm rm modes ur_after-Reach fanuc_after-Reach khi_after-Reach

ur_recovery-IsLate_example :
    IsLate
      (ur_threads sm rm)
      (initial (ur_threads sm rm))
      (dispatch sm rm start (safety_mode_callback 3)).1
      start.operational_status
ur_recovery-IsLate_example = ur_recovery-IsLate sm rm (safety_mode_callback 3) built refl refl
