-- ===== src/Reporter/Fanuc.antt =====
-- The FANUC node as a reporter of the latest robot status.
use icon_hwm_controller.Prelude.{◌≡◌, refl, Option, none, some}
use icon_hwm_controller.Reporter.{Reporter, Implements}
use icon_hwm_controller.Fanuc.Status.{RobotStatus, ContactStopMode, to_operational_status}
use icon_hwm_controller.Fanuc.Node.{
  Node, start, Callback, robot_status_callback, publish_callback, dispatch,
}

abbrev absorb : Option RobotStatus → Callback → Option RobotStatus
absorb v (robot_status_callback msg) = some msg
absorb v publish_callback = v

module _ (modes : ContactStopMode) where
  abbrev pub fanuc_reporter : Reporter
  fanuc_reporter = record {
    View = Option RobotStatus;
    Message = Callback;
    blank = none;
    absorb = absorb;
    evaluate = to_operational_status modes;
  }

  abbrev Shows : Node → Option RobotStatus → Type 0
  Shows n v = n.operational_status ≡ to_operational_status modes v

  start-Shows : Shows start none
  unfolding start to_operational_status
  start-Shows = refl

  dispatch-Shows :
      (n : Node) (v : Option RobotStatus) (c : Callback)
      → Shows n v
      → Shows (dispatch modes n c).0 (absorb v c)
        × ((dispatch modes n c).1 ≡ to_operational_status modes (absorb v c))
  unfolding dispatch
  dispatch-Shows n v (robot_status_callback msg) s = (refl, refl)
  dispatch-Shows n v publish_callback s = (s, s)

  pub fanuc_node : Implements fanuc_reporter start (dispatch modes)
  fanuc_node = record { Shows = Shows; start_shows = start-Shows; dispatch_shows = dispatch-Shows }
