-- ===== src/Fanuc/Node.antt =====
-- The state of `FanucOperationalStateNode` and its topic and timer callbacks.
use icon_hwm_controller.Prelude.{some}
use icon_hwm_controller.OperationalStatus.{OperationalStatus}
use icon_hwm_controller.Fanuc.Status.{RobotStatus, ContactStopMode, waiting, to_operational_status}

-- What `state_mutex_` guards.
pub record Node : Type 0 where
  pub operational_status : OperationalStatus

-- The state that the constructor leaves.
unfoldable pub start : Node
start = record { operational_status = waiting }

-- `GetOperationalStatus`.
unfoldable pub get_operational_status : Node → OperationalStatus
get_operational_status n = n.operational_status

-- `RobotStatusCallback`: the new state and the message that is published.
unfoldable pub on_robot_status : ContactStopMode → Node → RobotStatus → Node × OperationalStatus
on_robot_status modes n msg =
    let s = to_operational_status modes (some msg) in (record n { operational_status = s }, s)

-- `PublishOperationalStatus`, the timer's callback.
unfoldable pub publish_operational_status : Node → Node × OperationalStatus
publish_operational_status n = (n, n.operational_status)

pub data Callback : Type 0 where
  robot_status_callback : RobotStatus → Callback
  publish_callback : Callback

unfoldable pub dispatch : ContactStopMode → Node → Callback → Node × OperationalStatus
unfolding on_robot_status publish_operational_status
dispatch modes n (robot_status_callback msg) = on_robot_status modes n msg
dispatch modes n publish_callback = publish_operational_status n
