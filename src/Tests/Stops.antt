-- ===== src/Tests/Stops.antt =====
-- A stop of each vendor's robot, seen by the hardware module.
use icon_hwm_controller.Prelude.{◌≢◌, inl, refl, pos, true, [], arith}
use icon_hwm_controller.Status.{value}
use icon_hwm_controller.OperationalStatus.{enabled}
use icon_hwm_controller.Ur.Node.{start, publish_operational_status, run}
use icon_hwm_controller.Fanuc.Node.{start as fanuc_start, on_robot_status}
use icon_hwm_controller.Khi.Node.{start as khi_start, on_error_info}
use icon_hwm_controller.Safety.{Halts, ur_stop-Halts, fanuc_stop-Halts, khi_error-Halts}
use icon_hwm_controller.Tests.Motion.{loans, with_state, targets, parked}
use icon_hwm_controller.Tests.Nodes.Ur.{sm, rm, history}
use icon_hwm_controller.Tests.Nodes.Fanuc.{modes, stopped}
use icon_hwm_controller.Tests.Nodes.Khi.{overheated}

overheated_ne : overheated.error_codes ≢ []
overheated_ne e = ground (arith, e)

ur_stop-Halts_example :
    Halts loans
      (with_state enabled)
      (value targets)
      parked
      (publish_operational_status sm rm (run sm rm start history).0).1
unfolding start
ur_stop-Halts_example =
    ur_stop-Halts loans (with_state enabled) (value targets) parked sm rm history 3 (pos 7) true
      refl (λ e. ground (arith, e)) (λ e. ground (arith, e))

fanuc_stop-Halts_example :
    Halts loans
      (with_state enabled)
      (value targets)
      parked
      (on_robot_status modes fanuc_start stopped).1
fanuc_stop-Halts_example =
    fanuc_stop-Halts loans (with_state enabled) (value targets) parked modes fanuc_start stopped
      (inl refl)

khi_error-Halts_example :
    Halts loans (with_state enabled) (value targets) parked (on_error_info khi_start overheated).1
khi_error-Halts_example =
    khi_error-Halts loans (with_state enabled) (value targets) parked khi_start overheated
      overheated_ne
