-- ===== src/Tests/Reporters.antt =====
-- Short histories of the three vendor nodes beside their specification.
use icon_hwm_controller.Prelude.{◌≡◌, List, [], ◌∷◌}
use icon_hwm_controller.Reporter.{published, reports}
use icon_hwm_controller.Reporter.Ur.{ur_reporter}
use icon_hwm_controller.Reporter.Fanuc.{fanuc_reporter}
use icon_hwm_controller.Reporter.Khi.{khi_reporter}
use icon_hwm_controller.Reporter.Vendors.{vendors_refine}
use icon_hwm_controller.Ur.Node.{start as ur_start, dispatch as ur_dispatch}
use icon_hwm_controller.Fanuc.Node.{
  Callback as FanucCallback, robot_status_callback, publish_callback as fanuc_tick,
  start as fanuc_start, dispatch as fanuc_dispatch,
}
use icon_hwm_controller.Khi.Node.{
  Callback as KhiCallback, error_info_callback, publish_callback as khi_tick, start as khi_start,
  dispatch as khi_dispatch,
}
use icon_hwm_controller.Tests.Nodes.Ur.{sm, rm, history}
use icon_hwm_controller.Tests.Nodes.Fanuc.{modes, stopped}
use icon_hwm_controller.Tests.Nodes.Khi.{overheated}

abbrev fanuc_history : List FanucCallback
fanuc_history = fanuc_tick ∷ robot_status_callback stopped ∷ fanuc_tick ∷ []

abbrev khi_history : List KhiCallback
khi_history = khi_tick ∷ error_info_callback overheated ∷ khi_tick ∷ []

vendors_refine_example :
    (published (ur_reporter sm rm) (ur_dispatch sm rm) ur_start history
      ≡ reports (ur_reporter sm rm) (ur_reporter sm rm).blank history)
    × (published (fanuc_reporter modes) (fanuc_dispatch modes) fanuc_start fanuc_history
        ≡ reports (fanuc_reporter modes) (fanuc_reporter modes).blank fanuc_history)
    × (published khi_reporter khi_dispatch khi_start khi_history
        ≡ reports khi_reporter khi_reporter.blank khi_history)
vendors_refine_example = vendors_refine sm rm modes history fanuc_history khi_history
