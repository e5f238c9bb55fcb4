-- ===== src/Fanuc/Status.antt =====
-- `ToOperationalStatus` of the FANUC node.
pub mod Meaning
use icon_hwm_controller.Prelude.{
  ℕ, String, Bool, [], ◌∷◌, not, Option, none, some, ◌==◌, if◌then◌else◌, concat, decimal,
}
use icon_hwm_controller.OperationalStatus.{OperationalStatus, unknown, disabled, faulted, enabled}

-- The fields of fanuc_msgs/msg/RobotStatus that the node reads; the message type and its two
-- constants are not part of the repository.
pub record RobotStatus : Type 0 where
  pub in_error : Bool
  pub e_stopped : Bool
  pub motion_possible : Bool
  pub tp_enabled : Bool
  pub contact_stop_mode : ℕ  -- uint8

pub record ContactStopMode : Type 0 where
  pub mode_none : ℕ
  pub mode_safe : ℕ

abbrev pub waiting : OperationalStatus
waiting = record { state = unknown; message = "Waiting for FANUC robot status messages" }

module _ (modes : ContactStopMode) where
  contact_stop_message : ℕ → String
  contact_stop_message m =
      if m == modes.mode_safe
      then "FANUC robot contact stop active. Call clear_faults to recover."
      else concat (
          "FANUC robot contact stop mode "
          ∷ decimal m
          ∷ " active. Call clear_faults to recover."
          ∷ [])

  evaluate : RobotStatus → OperationalStatus
  evaluate r =
      if r.e_stopped
      then record {
        state = faulted;
        message = "FANUC robot emergency stop is active. Release E-stop and call clear_faults.";
      }
      else if not (r.contact_stop_mode == modes.mode_none)
      then record { state = faulted; message = contact_stop_message r.contact_stop_mode }
      else if r.tp_enabled
      then record {
        state = disabled;
        message = "FANUC teach pendant is enabled (manual control mode).";
      }
      else if r.in_error
      then record {
        state = faulted;
        message = "FANUC robot is in error/alarm state. Call clear_faults to recover.";
      }
      else if not r.motion_possible
      then record {
        state = faulted;
        message =
            "FANUC robot motion_possible is false. Call clear_faults to restore ROS 2 motion control.";
      }
      else record { state = enabled; message = "" }

  unfoldable pub to_operational_status : Option RobotStatus → OperationalStatus
  unfolding evaluate contact_stop_message
  to_operational_status none = waiting
  to_operational_status (some r) = evaluate r
