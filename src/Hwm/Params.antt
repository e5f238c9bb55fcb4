-- ===== src/Hwm/Params.antt =====
-- `Ros2HwmImpl::Params`, the object that `Ros2HwmImpl::Create` builds from it, and `Init`.
use icon_hwm_controller.Prelude.{
  ℕ, String, Bool, true, false, List, Option, none, some, ◌==◌, if◌then◌else◌, empty_str,
}
use icon_hwm_controller.Status.{status, invalid_argument, Expected, value, error}
use icon_hwm_controller.OperationalStatus.{OperationalStatus, unknown}

-- A pointer to one of the two vectors of loaned interfaces that the controller owns. The vectors
-- themselves are arguments of the operations that look through the pointer.
pub data Pointer : Type 0 where
  null to_controller : Pointer

abbrev pub is_null : Pointer → Bool
is_null null = true
is_null to_controller = false

-- `clock` says whether the pointer to the clock is set; the logger is left out.
pub record Params : Type 0 where
  pub hardware_component_name : String
  pub num_dofs : ℕ
  pub state_interfaces : Pointer
  pub command_interfaces : Pointer
  pub state_stride : ℕ
  pub command_stride : ℕ
  pub has_velocity_state : Bool
  pub has_velocity_command : Bool
  pub operational_status_topic : String
  pub clear_faults_service : String
  pub controllers_to_activate : List String
  pub controllers_to_deactivate : List String
  pub clock : Bool

-- The object's own state. A subscription or a client is known by the name it was created for.
pub record Hwm : Type 0 where
  pub params : Params
  pub latest_operational_status : OperationalStatus
  pub operational_status_subscription : Option String
  pub clear_faults_client : Option String

abbrev pub unknown_status : OperationalStatus
unknown_status = record { state = unknown; message = "" }

abbrev unless_empty : String → Option String
unless_empty name = if empty_str name then none else some name

unfoldable pub create : Params → Expected Hwm
create p =
    if is_null p.state_interfaces
    then error (status invalid_argument "state_interfaces pointer cannot be null")
    else if is_null p.command_interfaces
    then error (status invalid_argument "command_interfaces pointer cannot be null")
    else if p.state_stride == 0
    then error (status invalid_argument "state_stride cannot be 0")
    else if p.command_stride == 0
    then error (status invalid_argument "command_stride cannot be 0")
    else value (record {
      params = p;
      latest_operational_status = unknown_status;
      operational_status_subscription = unless_empty p.operational_status_topic;
      clear_faults_client = unless_empty p.clear_faults_service;
    })

-- `OnOperationalStatus`.
unfoldable pub on_operational_status : Hwm → OperationalStatus → Hwm
on_operational_status h msg = record h { latest_operational_status = msg }
