-- ===== src/Ur/Recovery.antt =====
-- `CallTriggerService`, `CallSetModeAction`, `ClearFaults` and `ClearFaultsCallback` of the
-- Universal Robots node.
mod Processes
pub mod Outcome
pub mod Plan
pub mod Publications
pub mod Restraint
pub mod Sequence
unfoldable pub use Processes.*
use icon_hwm_controller.Prelude.{
  ℕ, ℤ, String, Bool, true, false, List, [], ◌∷◌, ◌||◌, ◌&&◌, not, Option, none, some, value_or,
  ◌==◌, eqb_ℤ, if◌then◌else◌, empty_str, concat, decimal,
}
use icon_hwm_controller.Status.{
  Status, ok_status, is_ok, status, invalid_argument, unavailable, deadline_exceeded, internal,
  failed_precondition,
}
use icon_hwm_controller.OperationalStatus.{OperationalStatus}
use icon_hwm_controller.Ur.Status.{RobotStatus, SafetyMode, RobotMode}
use icon_hwm_controller.Ur.Node.{Node}

module _ (services : Services) where
  trigger_status : String → ℕ → Option TriggerResponse → Status
  trigger_status name timeout none = status deadline_exceeded (
      concat (
        "Service '"
        ∷ services.service_name name
        ∷ "' timed out after "
        ∷ decimal timeout
        ∷ " s"
        ∷ []))
  trigger_status name timeout (some response) =
      if response.success then ok_status else status internal response.message

  unfoldable pub call_trigger_service : Option String → ℕ → Trace → Status × Trace
  unfolding trigger_status
  call_trigger_service none timeout t = (status invalid_argument "Service client is null", t)
  call_trigger_service (some name) timeout t =
      if services.service_is_ready t name || services.wait_for_service t name
      then (
        trigger_status name timeout (services.trigger_response (trigger_request name ∷ t)),
        trigger_request name ∷ t,
      )
      else (
        status unavailable
            (concat ("Service '" ∷ services.service_name name ∷ "' is not available" ∷ [])),
        t,
      )

  -- The status for the result of the action.
  abbrev no_success : String
  no_success = "SetMode action did not succeed"

  result_status : Option WrappedResult → Status
  result_status none = status deadline_exceeded "Timeout waiting for SetMode action result"
  result_status (some w) = elim w.result [
    | none ↦ status internal no_success
    | some r ↦
        if w.succeeded && r.success
        then ok_status
        else status internal (if empty_str r.message then no_success else r.message)
  ]

  -- From the goal's answer on.
  goal_status : Option Bool → Trace → Status × Trace
  unfolding result_status
  goal_status none t = (status deadline_exceeded "Timeout sending goal to SetMode action server", t)
  goal_status (some false) t = (status internal "SetMode goal was rejected by action server", t)
  goal_status (some true) t =
      (result_status (services.action_result (get_result_request ∷ t)), get_result_request ∷ t)

  unfoldable pub call_set_mode_action : Bool → ℤ → Bool → Bool → Trace → Status × Trace
  unfolding goal_status
  call_set_mode_action client target stop_program play_program t =
      if not client
      then (status failed_precondition "SetMode action client is not initialized", t)
      else if services.action_server_is_ready t || services.wait_for_action_server t
      then (let t' = set_mode_goal target stop_program play_program ∷ t in
          goal_status (services.goal_accepted t') t')
      else (status unavailable "SetMode action server is not available", t)

  module _ (sm : SafetyMode) (rm : RobotMode) (clients : Clients) where
    -- A trigger whose status is not looked at.
    try_trigger : Option String → Trace → Trace
    try_trigger client t = (call_trigger_service client clients.service_timeout t).1

    -- The attempt to connect when the robot is not connected.
    connect_if_disconnected : ℤ → Trace → Trace
    connect_if_disconnected robot t =
        if eqb_ℤ robot rm.disconnected || eqb_ℤ robot rm.no_controller
        then try_trigger clients.connect t
        else t

    -- The `switch` over the safety mode.
    pub is_restart_mode : ℕ → Bool
    is_restart_mode m =
        m == sm.violation
        || m == sm.fault
        || m == sm.safeguard_stop
        || m == sm.automatic_mode_safeguard_stop
        || m == sm.system_emergency_stop
        || m == sm.robot_emergency_stop

    handle_safety : ℕ → Trace → Trace
    handle_safety safety t =
        if safety == sm.protective_stop
        then try_trigger clients.unlock_protective_stop t
        else if is_restart_mode safety
        then slept 500
          ∷ try_trigger clients.restart_safety (try_trigger clients.close_safety_popup t)
        else t

    -- All that is sent before the `SetMode` action.
    unfoldable pub prepare_recovery : RobotStatus → Trace → Trace
    unfolding connect_if_disconnected handle_safety is_restart_mode try_trigger
    prepare_recovery r t = try_trigger clients.close_popup (
        try_trigger clients.close_safety_popup (
          handle_safety (value_or r.safety_mode sm.undefined_safety_mode)
            (connect_if_disconnected (value_or r.robot_mode rm.disconnected) t)))

    unfoldable pub failure_message : Status → Status → String
    failure_message set_mode resend = concat (
        "Neither SetMode nor resend_robot_program were able to clear the fault."
        ∷ (if empty_str set_mode.message
            then ""
            else concat (" SetMode error: '" ∷ set_mode.message ∷ "'." ∷ []))
        ∷ (if empty_str resend.message
            then ""
            else concat (" resend_robot_program error: '" ∷ resend.message ∷ "'." ∷ []))
        ∷ [])

    -- The second half of `ClearFaults`: the program is sent again after `SetMode` failed.
    resend_program : Status → OperationalStatus → Trace → Status × Trace
    unfolding try_trigger
    resend_program set_mode current t =
        let (resend, t') =
          call_trigger_service clients.resend_robot_program clients.service_timeout
            (try_trigger clients.brake_release t) in
        (
          if is_ok resend then ok_status else status internal (failure_message set_mode resend),
          published current ∷ t',
        )

    -- `before` is the node when the call starts. The topic callbacks go on during the waits:
    -- `after` is the node when the status is published at the end.
    unfoldable pub clear_faults : Node → Node → Trace → Status × Trace
    unfolding resend_program
    clear_faults before after t =
        let (set_mode, t') =
          call_set_mode_action clients.set_mode_action_client rm.running true true
            (prepare_recovery before.robot_status t) in
        if is_ok set_mode
        then (ok_status, published after.operational_status ∷ t')
        else resend_program set_mode after.operational_status t'

    unfoldable pub clear_faults_callback : Node → Node → Trace → TriggerResponse × Trace
    clear_faults_callback before after t =
        let (s, t') = clear_faults before after t in
        (
          record {
            success = is_ok s;
            message =
                if is_ok s then "Successfully cleared faults and recovered robot." else s.message;
          },
          t',
        )
