-- ===== src/Serving/Vendors.antt =====
-- The three vendor nodes as their `main` functions spin them.
use icon_hwm_controller.Prelude.{◌≡◌, some}
use icon_hwm_controller.Ros.{Ros, Process}
use icon_hwm_controller.Serving.{IsRanged, IsServing}
use icon_hwm_controller.Serving.Fanuc
use icon_hwm_controller.Serving.Khi
use icon_hwm_controller.Serving.Ur
use icon_hwm_controller.Ur.Setup as UrSetup
use icon_hwm_controller.Fanuc.Setup as FanucSetup
use icon_hwm_controller.Khi.Setup as KhiSetup
use icon_hwm_controller.Ur.Node as UrNode
use icon_hwm_controller.Fanuc.Node as FanucNode
use icon_hwm_controller.Khi.Node as KhiNode

-- When rclcpp keeps an integer parameter in its range, the node that each of the three `main` functions
-- spins is in its first state; its topic and timer callbacks run in turn, in one group, and so do the
-- calls of its service, in another; while a call of the service runs, the answer of every client can
-- come in; each group is created before it is used; and the timeouts are one to 300 seconds.
pub vendors_serve :
    (ros : Ros) {u : Process UrNode.Node UrSetup.Handler}
    {f : Process FanucNode.Node FanucSetup.Handler} {k : Process KhiNode.Node KhiSetup.Handler}
    → IsRanged ros
    → UrSetup.main_process ros ≡ some u
    → FanucSetup.main_process ros ≡ some f
    → KhiSetup.main_process ros ≡ some k
    → Ur.IsUrServing u
      × IsServing FanucNode.start Fanuc.publishing FanucSetup.clear_faults_callback f
      × IsServing KhiNode.start Khi.publishing KhiSetup.clear_faults_callback k
vendors_serve ros ranged eu ef ek = (
  Ur.main_process-IsUrServing ros ranged eu,
  Fanuc.main_process-IsServing ros ranged ef,
  Khi.main_process-IsServing ros ranged ek,
)
