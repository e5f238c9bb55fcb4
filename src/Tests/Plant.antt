-- ===== src/Tests/Plant.antt =====
-- Runs of a whole robot.
use icon_hwm_controller.Prelude.{◌↔◌, ◌≡◌, refl, true, false, [], ◌∷◌, none, inl, inr, arith}
use icon_hwm_controller.Status.{value}
use icon_hwm_controller.OperationalStatus.{OperationalStatus, enabled}
use icon_hwm_controller.Hwm.Params.{on_operational_status}
use icon_hwm_controller.Hwm.Apply.Guards.{Forbids, apply_command_blocked}
use icon_hwm_controller.Threads.{topic_thread, topic_locks, topic_publishes}
use icon_hwm_controller.Threads.Ur.{ur_threads}
use icon_hwm_controller.Threads.Khi.{khi_threads}
use icon_hwm_controller.Threads.Settled.{khi}
use icon_hwm_controller.Ur.Node.{program_running_callback, dispatch}
use icon_hwm_controller.Khi.Node.{publish_callback, error_info_callback, dispatch as khi_dispatch}
use icon_hwm_controller.Khi.Status.{all_fine, to_operational_status as khi_evaluate}
use icon_hwm_controller.Plant.Late.{khi as khi_holds, MovesAtFault, late_recovery_moves}
use icon_hwm_controller.Tests.Nodes.Khi.{overheated}
use icon_hwm_controller.Tests.Cycle.{direct, faulted_direct, faulted_direct-IsSound, parked-ne}
use icon_hwm_controller.Cycle.{
  System as Module, commanded, lock, store, unlock, apply, Run as CycleRun, here, next,
}
use icon_hwm_controller.Plant.{State, Run, stays, steps, publishes, works, receives, cycles}
use icon_hwm_controller.Plant.Stops.{ur, stopped_robot_stands}
use icon_hwm_controller.Plant.Settles.{Settles}
use icon_hwm_controller.Plant.Verdict.{Takes, plant_verdict}
use icon_hwm_controller.Threads.Settled.{khi}
use icon_hwm_controller.Tests.Motion.{loans, with_state, targets, parked, joints, zeros}
use icon_hwm_controller.Tests.Nodes.Ur.{sm, rm}
use icon_hwm_controller.Tests.Threads.{
  ur_running, ur_running-Reach, ur_stopped, ur_stopped-faulted, khi_after, khi_after-Reach,
}

-- The module has heard that all is fine.
abbrev at_work : Module loans
at_work = record {
  hwm = with_state enabled;
  held = false;
  interfaces = parked;
  joints = joints zeros zeros none;
}

abbrev ur_started : State (ur_threads sm rm) loans
ur_started = record { node = ur_running; topic = []; hwm = at_work }

-- The message that makes the node say that the robot is in a protective stop.
abbrev stop : OperationalStatus
stop = (dispatch sm rm ur_running.node (program_running_callback true)).1

abbrev ur_halted : State (ur_threads sm rm) loans
ur_halted = record {
  node = ur_stopped;
  topic = [];
  hwm = record at_work { hwm = on_operational_status at_work.hwm stop };
}

halting-Run : Run (ur_threads sm rm) loans ur_started ((topic_thread, stop) ∷ []) ur_halted
halting-Run =
    steps
      (steps
        (steps
          (publishes topic_thread stop
            (steps stays (works (topic_locks (program_running_callback true) refl) refl))
            (topic_publishes stop refl) refl)
          (cycles (lock refl) tt))
        (receives stop [] refl (store stop refl)))
      (cycles (unlock refl) tt)

ur_halted-Forbids : Forbids ur_halted.node.node.operational_status
ur_halted-Forbids = inr ur_stopped-faulted

-- The next command, which is refused.
stop-Forbids : Forbids ur_halted.hwm.hwm.latest_operational_status
unfolding on_operational_status dispatch
stop-Forbids = inr ur_stopped-faulted

refused_cycle : CycleRun loans ur_halted.hwm (commanded false ∷ []) ur_halted.hwm
refused_cycle =
    let (s, e, _) =
      apply_command_blocked loans ur_halted.hwm.hwm (value targets) parked stop-Forbids in
    next (apply (value targets) e) here

stopped_robot_stands_example :
    (ur_halted.hwm.interfaces ≡ parked) × Forbids ur_halted.hwm.hwm.latest_operational_status
stopped_robot_stands_example =
    stopped_robot_stands (ur sm rm) loans ur_running-Reach halting-Run refl refl ur_halted-Forbids
      refused_cycle (refl, tt)

-- A Kawasaki robot at fault, whose module drives hardware that does what it is told.
abbrev khi_faulted : State khi_threads direct
khi_faulted = record { node = khi_after; topic = []; hwm = faulted_direct }

fine-ne : ¬ Forbids all_fine
fine-ne (inl e) = ground (arith, e)
fine-ne (inr e) = ground (arith, e)

late_recovery_moves_example : MovesAtFault khi_threads direct khi_faulted targets
unfolding khi_dispatch khi_evaluate
late_recovery_moves_example =
    late_recovery_moves direct khi_faulted all_fine (record { operational_status = all_fine })
      (error_info_callback overheated) targets (khi_holds khi_after.node)
      (record { topic_out = refl; service_out = refl; arrived = refl; unlocked = refl }) refl
      fine-ne faulted_direct-IsSound parked-ne (λ c v. refl)
      (record { positions = refl; velocities = refl; connected = refl })

plant_verdict_example :
    (v : Settles khi_threads direct khi_faulted publish_callback) × (Takes direct v.after.hwm
        targets
      ↔ (¬ Forbids v.after.node.node.operational_status))
plant_verdict_example =
    plant_verdict khi direct khi_faulted publish_callback targets khi_after-Reach
      faulted_direct-IsSound.armed parked-ne (λ c v. refl)
      (record { positions = refl; velocities = refl; connected = refl })
