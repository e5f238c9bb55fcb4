-- ===== src/Fanuc/Status/Meaning.antt =====
-- What each operational state says of a FANUC robot.
use icon_hwm_controller.Prelude.{◌≡◌, ◌≢◌, ◌⊎◌, ◌↔◌, true, false, some, arith}
use icon_hwm_controller.OperationalStatus.{disabled, faulted, enabled}
use icon_hwm_controller.Fanuc.Status.{RobotStatus, ContactStopMode, to_operational_status}

module _ (modes : ContactStopMode) (r : RobotStatus) where
  -- No emergency stop and no contact stop.
  pub record IsFree : Type 0 where
    pub not_stopped : r.e_stopped ≡ false
    pub no_contact : r.contact_stop_mode ≡ modes.mode_none

  -- Free, under external control, without an alarm, and able to move.
  pub record Moves : Type 0 where
    pub free : IsFree
    pub external : r.tp_enabled ≡ false
    pub no_alarm : r.in_error ≡ false
    pub possible : r.motion_possible ≡ true

  -- The state is `enabled` exactly without a stop, under external control, without an alarm, and with
  -- motion possible.
  pub fanuc_enabled_iff : ((to_operational_status modes (some r)).state ≡ enabled) ↔ Moves
  unfolding to_operational_status
  fanuc_enabled_iff = ground arith

  -- The state is `disabled` exactly when the teach pendant is enabled and there is no stop.
  pub fanuc_disabled_iff :
      ((to_operational_status modes (some r)).state ≡ disabled) ↔ (IsFree × (r.tp_enabled ≡ true))
  unfolding to_operational_status
  fanuc_disabled_iff = ground arith

  -- The state is `faulted` exactly for an emergency stop or a contact stop, whatever the teach pendant,
  -- and, under external control, for an alarm or when motion is not possible.
  pub fanuc_faulted_iff : ((to_operational_status modes (some r)).state ≡ faulted) ↔ (
      (r.e_stopped ≡ true)
      ⊎ (r.contact_stop_mode ≢ modes.mode_none)
      ⊎ ((r.tp_enabled ≡ false) × ((r.in_error ≡ true) ⊎ (r.motion_possible ≡ false))))
  unfolding to_operational_status
  fanuc_faulted_iff = ground arith
