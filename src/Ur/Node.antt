-- ===== src/Ur/Node.antt =====
-- The state of `UrOperationalStateNode` and its topic and timer callbacks.
pub mod History
pub mod Interleaving
pub mod Topics
use icon_hwm_controller.Prelude.{ℕ, ℤ, Bool, List, [], ◌∷◌, none, some}
use icon_hwm_controller.OperationalStatus.{OperationalStatus}
use icon_hwm_controller.Ur.Status.{
  RobotStatus, SafetyMode, RobotMode, waiting, to_operational_status,
}

-- What `state_mutex_` guards. Each callback holds the mutex while it touches the two fields.
pub record Node : Type 0 where
  pub robot_status : RobotStatus
  pub operational_status : OperationalStatus

-- The state that the constructor leaves.
unfoldable pub start : Node
start = record {
  robot_status = record { robot_mode = none; safety_mode = none; program_running = none };
  operational_status = waiting;
}

-- `GetOperationalStatus`.
unfoldable pub get_operational_status : Node → OperationalStatus
get_operational_status n = n.operational_status

pub data Callback : Type 0 where
  robot_mode_callback : ℤ → Callback
  safety_mode_callback : ℕ → Callback
  program_running_callback : Bool → Callback
  publish_callback : Callback

module _ (sm : SafetyMode) (rm : RobotMode) where
  -- A new robot status, its evaluation, and the message that is published after the mutex is free.
  update_with : RobotStatus → Node × OperationalStatus
  update_with r =
      let s = to_operational_status sm rm r in
      (record { robot_status = r; operational_status = s }, s)

  unfoldable pub on_robot_mode : Node → ℤ → Node × OperationalStatus
  unfolding update_with
  on_robot_mode n mode = update_with (record (n.robot_status) { robot_mode = some mode })

  unfoldable pub on_safety_mode : Node → ℕ → Node × OperationalStatus
  unfolding update_with
  on_safety_mode n mode = update_with (record (n.robot_status) { safety_mode = some mode })

  unfoldable pub on_program_running : Node → Bool → Node × OperationalStatus
  unfolding update_with
  on_program_running n running =
      update_with (record (n.robot_status) { program_running = some running })

  -- `PublishOperationalStatus`, also the timer's callback.
  unfoldable pub publish_operational_status : Node → Node × OperationalStatus
  publish_operational_status n = (n, n.operational_status)

  unfoldable pub dispatch : Node → Callback → Node × OperationalStatus
  unfolding on_robot_mode on_safety_mode on_program_running publish_operational_status
  dispatch n (robot_mode_callback m) = on_robot_mode n m
  dispatch n (safety_mode_callback m) = on_safety_mode n m
  dispatch n (program_running_callback b) = on_program_running n b
  dispatch n publish_callback = publish_operational_status n

  -- A history of callbacks: the final state and what was published, the oldest first.
  unfoldable pub run : Node → List Callback → Node × List OperationalStatus
  run n [] = (n, [])
  run n (c ∷ cs) = ((run (dispatch n c).0 cs).0, (dispatch n c).1 ∷ (run (dispatch n c).0 cs).1)
