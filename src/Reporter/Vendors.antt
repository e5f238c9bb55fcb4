-- ===== src/Reporter/Vendors.antt =====
-- The three nodes against their specifications.
use icon_hwm_controller.Prelude.{◌≡◌, List}
use icon_hwm_controller.Reporter.{published, reports, published-reports}
use icon_hwm_controller.Reporter.Ur.{ur_reporter, ur_node}
use icon_hwm_controller.Reporter.Fanuc.{fanuc_reporter, fanuc_node}
use icon_hwm_controller.Reporter.Khi.{khi_reporter, khi_node}
use icon_hwm_controller.Ur.Status.{SafetyMode, RobotMode}
use icon_hwm_controller.Ur.Node.{Callback as UrCallback, start as ur_start, dispatch as ur_dispatch}
use icon_hwm_controller.Fanuc.Node.{
  Callback as FanucCallback, start as fanuc_start, dispatch as fanuc_dispatch,
}
use icon_hwm_controller.Khi.Node.{
  Callback as KhiCallback, start as khi_start, dispatch as khi_dispatch,
}
use icon_hwm_controller.Fanuc.Status.{ContactStopMode}

-- In every history of callbacks each of the three nodes publishes what the specification of a reporter
-- of the latest messages says: one evaluation for each message and each tick of the timer.
pub vendors_refine :
    (sm : SafetyMode) (rm : RobotMode) (modes : ContactStopMode) (us : List UrCallback)
    (fs : List FanucCallback) (ks : List KhiCallback)
    → (published (ur_reporter sm rm) (ur_dispatch sm rm) ur_start us
        ≡ reports (ur_reporter sm rm) (ur_reporter sm rm).blank us)
      × (published (fanuc_reporter modes) (fanuc_dispatch modes) fanuc_start fs
          ≡ reports (fanuc_reporter modes) (fanuc_reporter modes).blank fs)
      × (published khi_reporter khi_dispatch khi_start ks
          ≡ reports khi_reporter khi_reporter.blank ks)
vendors_refine sm rm modes us fs ks = (
  published-reports (ur_reporter sm rm) (ur_node sm rm) us,
  published-reports (fanuc_reporter modes) (fanuc_node modes) fs,
  published-reports khi_reporter khi_node ks,
)
