-- ===== src/Ur/Recovery/Processes.antt =====
-- The processes that a recovery of the Universal Robots node talks to, and the node's clients of them.
use icon_hwm_controller.Prelude.{ℕ, ℤ, String, Bool, true, List, Option, some}
use icon_hwm_controller.OperationalStatus.{OperationalStatus}

pub data Event : Type 0 where
  trigger_request : String → Event
  set_mode_goal : ℤ → Bool → Bool → Event
  get_result_request : Event
  slept : ℕ → Event  -- milliseconds
  published : OperationalStatus → Event

-- What the node has sent and done, the newest first.
abbrev pub Trace : Type 0
Trace = List Event

pub record TriggerResponse : Type 0 where
  pub success : Bool
  pub message : String

-- A result of the action: whether its code is SUCCEEDED, and the result if there is one.
pub record WrappedResult : Type 0 where
  pub succeeded : Bool
  pub result : Option TriggerResponse

-- The other processes, which may answer by all that they have seen; an answer is `none` when it did
-- not come within the timeout. `goal_accepted` is false for a null goal handle.
pub record Services : Type 0 where
  pub service_name : String → String
  pub service_is_ready : Trace → String → Bool
  pub wait_for_service : Trace → String → Bool
  pub trigger_response : Trace → Option TriggerResponse
  pub action_server_is_ready : Trace → Bool
  pub wait_for_action_server : Trace → Bool
  pub goal_accepted : Trace → Option Bool
  pub action_result : Trace → Option WrappedResult

-- The node's settings and clients. A client is known by the name it was created for.
pub record Clients : Type 0 where
  pub service_timeout : ℕ
  pub action_timeout : ℕ
  pub set_mode_action_client : Bool
  pub resend_robot_program : Option String
  pub unlock_protective_stop : Option String
  pub restart_safety : Option String
  pub close_safety_popup : Option String
  pub close_popup : Option String
  pub brake_release : Option String
  pub power_on : Option String
  pub connect : Option String

-- What the constructor creates, for the two parameters.
unfoldable pub make_clients : ℕ → ℕ → Clients
make_clients service_timeout_sec action_timeout_sec = record {
  service_timeout = service_timeout_sec;
  action_timeout = action_timeout_sec;
  set_mode_action_client = true;
  resend_robot_program = some "io_and_status_controller/resend_robot_program";
  unlock_protective_stop = some "dashboard_client/unlock_protective_stop";
  restart_safety = some "dashboard_client/restart_safety";
  close_safety_popup = some "dashboard_client/close_safety_popup";
  close_popup = some "dashboard_client/close_popup";
  brake_release = some "dashboard_client/brake_release";
  power_on = some "dashboard_client/power_on";
  connect = some "dashboard_client/connect";
}
