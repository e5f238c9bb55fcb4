-- ===== src/Reporter/Khi.antt =====
-- The Kawasaki node as a reporter of the latest error report.
use icon_hwm_controller.Prelude.{◌≡◌, refl, Option, none, some}
use icon_hwm_controller.Reporter.{Reporter, Implements}
use icon_hwm_controller.Khi.Status.{ErrorInfo, to_operational_status}
use icon_hwm_controller.Khi.Node.{
  Node, start, Callback, error_info_callback, publish_callback, dispatch,
}

abbrev absorb : Option ErrorInfo → Callback → Option ErrorInfo
absorb v (error_info_callback msg) = some msg
absorb v publish_callback = v

abbrev pub khi_reporter : Reporter
khi_reporter = record {
  View = Option ErrorInfo;
  Message = Callback;
  blank = none;
  absorb = absorb;
  evaluate = to_operational_status;
}

abbrev Shows : Node → Option ErrorInfo → Type 0
Shows n v = n.operational_status ≡ to_operational_status v

start-Shows : Shows start none
unfolding start to_operational_status
start-Shows = refl

dispatch-Shows :
    (n : Node) (v : Option ErrorInfo) (c : Callback)
    → Shows n v
    → Shows (dispatch n c).0 (absorb v c) × ((dispatch n c).1 ≡ to_operational_status (absorb v c))
unfolding dispatch
dispatch-Shows n v (error_info_callback msg) s = (refl, refl)
dispatch-Shows n v publish_callback s = (s, s)

pub khi_node : Implements khi_reporter start dispatch
khi_node = record { Shows = Shows; start_shows = start-Shows; dispatch_shows = dispatch-Shows }
