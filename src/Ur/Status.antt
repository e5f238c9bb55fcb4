-- ===== src/Ur/Status.antt =====
-- `RobotStatus` and `ToOperationalStatus` of the Universal Robots node.
pub mod Meaning
use icon_hwm_controller.Prelude.{
  ℕ, ℤ, String, Bool, true, false, [], ◌∷◌, ◌&&◌, ◌||◌, not, Option, none, some, ◌==◌, eqb_ℤ,
  if◌then◌else◌, concat, decimal, decimal_ℤ,
}
use icon_hwm_controller.OperationalStatus.{OperationalStatus, unknown, disabled, faulted, enabled}

pub record RobotStatus : Type 0 where
  pub robot_mode : Option ℤ  -- int8
  pub safety_mode : Option ℕ  -- uint8
  pub program_running : Option Bool

-- The constants of ur_dashboard_msgs, which is not part of the repository.
pub record SafetyMode : Type 0 where
  pub normal : ℕ
  pub reduced : ℕ
  pub protective_stop : ℕ
  pub recovery : ℕ
  pub safeguard_stop : ℕ
  pub system_emergency_stop : ℕ
  pub robot_emergency_stop : ℕ
  pub violation : ℕ
  pub fault : ℕ
  pub validate_joint_id : ℕ
  pub undefined_safety_mode : ℕ
  pub automatic_mode_safeguard_stop : ℕ
  pub system_three_position_enabling_stop : ℕ

pub record RobotMode : Type 0 where
  pub no_controller : ℤ
  pub disconnected : ℤ
  pub confirm_safety : ℤ
  pub booting : ℤ
  pub power_off : ℤ
  pub power_on : ℤ
  pub idle : ℤ
  pub backdrive : ℤ
  pub updating_firmware : ℤ
  pub running : ℤ

abbrev pub waiting : OperationalStatus
waiting = record { state = unknown; message = "Waiting for robot status messages" }

abbrev fault_of : String → OperationalStatus
fault_of m = record { state = faulted; message = m }

abbrev quiet : ℕ → OperationalStatus
quiet s = record { state = s; message = "" }

module _ (sm : SafetyMode) where
  -- The first `switch`.
  safety_message : ℕ → String
  safety_message m =
      if m == sm.protective_stop
      then "Robot in protective stop. Call clear_faults to unlock."
      else if m == sm.recovery
      then "Robot in safety recovery mode."
      else if m == sm.safeguard_stop
      then "Safeguard stop active."
      else if m == sm.system_emergency_stop
      then "System emergency stop active."
      else if m == sm.robot_emergency_stop
      then "Robot emergency stop active."
      else if m == sm.violation
      then "Safety violation detected. Safety restart required."
      else if m == sm.fault
      then "Safety fault detected. Safety restart required."
      else if m == sm.validate_joint_id
      then "Robot validating joint ID."
      else if m == sm.undefined_safety_mode
      then "Undefined safety mode."
      else if m == sm.automatic_mode_safeguard_stop
      then "Automatic mode safeguard stop active."
      else if m == sm.system_three_position_enabling_stop
      then "System three-position enabling stop active."
      else concat ("Unknown safety mode: " ∷ decimal m ∷ [])

module _ (rm : RobotMode) where
  -- The six cases that share one body.
  is_idle_mode : ℤ → Bool
  is_idle_mode m =
      eqb_ℤ m rm.booting
      || eqb_ℤ m rm.power_off
      || eqb_ℤ m rm.power_on
      || eqb_ℤ m rm.idle
      || eqb_ℤ m rm.backdrive
      || eqb_ℤ m rm.updating_firmware

  -- The second `switch`.
  robot_mode_status : ℤ → Bool → OperationalStatus
  robot_mode_status m program_running =
      if eqb_ℤ m rm.no_controller
      then fault_of "No controller connected to robot."
      else if eqb_ℤ m rm.disconnected
      then fault_of "Robot is disconnected."
      else if eqb_ℤ m rm.confirm_safety
      then fault_of "Robot requires safety confirmation."
      else if is_idle_mode m
      then quiet disabled
      else if eqb_ℤ m rm.running
      then (if program_running then quiet enabled else quiet disabled)
      else fault_of (concat ("Unknown robot mode: " ∷ decimal_ℤ m ∷ []))

module _ (sm : SafetyMode) (rm : RobotMode) where
  evaluate : Option ℕ → Option ℤ → Option Bool → OperationalStatus
  evaluate (some safety_mode) (some robot_mode) (some program_running) =
      if not (safety_mode == sm.normal) && not (safety_mode == sm.reduced)
      then fault_of (safety_message sm safety_mode)
      else robot_mode_status rm robot_mode program_running
  evaluate _ _ _ = waiting

  unfoldable pub to_operational_status : RobotStatus → OperationalStatus
  unfolding evaluate robot_mode_status is_idle_mode safety_message
  to_operational_status s = evaluate s.safety_mode s.robot_mode s.program_running
