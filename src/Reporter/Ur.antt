-- ===== src/Reporter/Ur.antt =====
-- The Universal Robots node as a reporter of its three topics.
use icon_hwm_controller.Prelude.{◌≡◌, refl, ap, none, some}
use icon_hwm_controller.Reporter.{Reporter, Implements}
use icon_hwm_controller.Ur.Status.{RobotStatus, SafetyMode, RobotMode, to_operational_status}
use icon_hwm_controller.Ur.Node.{
  Node, start, Callback, robot_mode_callback, safety_mode_callback, program_running_callback,
  publish_callback, dispatch,
}

-- The latest value of each topic.
abbrev absorb : RobotStatus → Callback → RobotStatus
absorb r (robot_mode_callback m) = record r { robot_mode = some m }
absorb r (safety_mode_callback m) = record r { safety_mode = some m }
absorb r (program_running_callback b) = record r { program_running = some b }
absorb r publish_callback = r

module _ (sm : SafetyMode) (rm : RobotMode) where
  abbrev pub ur_reporter : Reporter
  ur_reporter = record {
    View = RobotStatus;
    Message = Callback;
    blank = record { robot_mode = none; safety_mode = none; program_running = none };
    absorb = absorb;
    evaluate = to_operational_status sm rm;
  }

  -- A state shows its robot status, and its operational status is the evaluation of that.
  abbrev Shows : Node → RobotStatus → Type 0
  Shows n r = (n.robot_status ≡ r) × (n.operational_status ≡ to_operational_status sm rm r)

  start-Shows : Shows start (ur_reporter.blank)
  unfolding start to_operational_status
  start-Shows = (refl, refl)

  dispatch-Shows :
      (n : Node) (r : RobotStatus) (c : Callback)
      → Shows n r
      → Shows (dispatch sm rm n c).0 (absorb r c)
        × ((dispatch sm rm n c).1 ≡ to_operational_status sm rm (absorb r c))
  unfolding dispatch
  dispatch-Shows n r (robot_mode_callback m) (s, e) =
      let told = ap (λ (q : RobotStatus). absorb q (robot_mode_callback m)) s in
      ((told, ap (to_operational_status sm rm) told), ap (to_operational_status sm rm) told)
  dispatch-Shows n r (safety_mode_callback m) (s, e) =
      let told = ap (λ (q : RobotStatus). absorb q (safety_mode_callback m)) s in
      ((told, ap (to_operational_status sm rm) told), ap (to_operational_status sm rm) told)
  dispatch-Shows n r (program_running_callback b) (s, e) =
      let told = ap (λ (q : RobotStatus). absorb q (program_running_callback b)) s in
      ((told, ap (to_operational_status sm rm) told), ap (to_operational_status sm rm) told)
  dispatch-Shows n r publish_callback (s, e) = ((s, e), e)

  pub ur_node : Implements ur_reporter start (dispatch sm rm)
  ur_node = record { Shows = Shows; start_shows = start-Shows; dispatch_shows = dispatch-Shows }
