-- ===== src/Hwm/Transitions.antt =====
-- The state transitions that the runtime asks for: `Prepare`, `Activate`, `Deactivate`,
-- `EnableMotion`, `DisableMotion`, `ClearFaults` and `Shutdown`.
pub mod Sent
pub mod Requests
pub mod Success
pub mod Vendor
pub mod Steps
pub mod Sequence
use icon_hwm_controller.Prelude.{
  String, [], ◌∷◌, Option, none, some, ◌==◌, if◌then◌else◌, empty_str, concat,
}
use icon_hwm_controller.Status.{
  Status, ok_status, is_ok, status, unavailable, deadline_exceeded, internal, failed_precondition,
}
use icon_hwm_controller.OperationalStatus.{faulted}
use icon_hwm_controller.Hwm.Params.{Hwm}
use icon_hwm_controller.Hwm.Services.{
  Services, Trace, PrimaryState, primary_state_active, primary_state_inactive, clear_faults_client,
  clear_faults_request, call_switch_controller, call_set_hw_state, reset_clock,
}

-- `INTR_RETURN_STATUS_IF_ERROR(first); return rest`.
abbrev pub return_if_error : Status × Trace → (Trace → Status × Trace) → Status × Trace
return_if_error (s, t) rest = if is_ok s then rest t else (s, t)

module _ (services : Services) where
  -- `if (params_.clock != nullptr) { ... clock->Reset(...) }`, at the head of two operations.
  reset_clock_if_set : Hwm → Trace → Status × Trace
  reset_clock_if_set h t = if h.params.clock then reset_clock services t else (ok_status, t)

  -- The call of `CallSetHwState` for a component that is configured, with the caller's message.
  set_component : String → PrimaryState → Hwm → Trace → Status × Trace
  set_component what state h t =
      if empty_str h.params.hardware_component_name
      then (ok_status, t)
      else let (s, t') = call_set_hw_state services h.params.hardware_component_name state t in
        if is_ok s then (s, t') else (
          status s.code (concat (what ∷ h.params.hardware_component_name ∷ "': " ∷ s.message ∷ [])),
          t',
        )

  activate_controllers : Hwm → Trace → Status × Trace
  activate_controllers h =
      call_switch_controller services h.params.controllers_to_activate
        h.params.controllers_to_deactivate

  unfoldable pub prepare : Hwm → Trace → Status × Trace
  unfolding reset_clock_if_set set_component activate_controllers
  prepare h t = return_if_error (reset_clock_if_set h t) λ t1.
      return_if_error
        (set_component "Failed to activate hardware component '" primary_state_active h t1)
        (activate_controllers h)

  -- The call of the vendor's service, where one is configured.
  call_clear_faults : Option String → Trace → Status × Trace
  call_clear_faults none t = (ok_status, t)
  call_clear_faults (some service) t =
      let t' = clear_faults_request service ∷ t in
      if services.wait_for_service t clear_faults_client
      then (
        elim (services.trigger_response t') [
          | none ↦ status deadline_exceeded "ClearFaults service call timed out"
          | some response ↦
              if response.success
              then ok_status
              else status internal (
                  concat ("ClearFaults service call failed with message: " ∷ response.message ∷ []))
        ],
        t',
      )
      else (status unavailable "ClearFaults service not available", t)

  -- What follows the vendor's service: the component and the controllers are activated again.
  pub reactivate : Hwm → Trace → Status × Trace
  unfolding set_component activate_controllers
  reactivate h t =
      return_if_error
        (set_component "ClearFault: Failed to activate hardware component '" primary_state_active h
          t)
        (activate_controllers h)

  unfoldable pub clear_faults : Hwm → Trace → Status × Trace
  unfolding call_clear_faults reactivate
  clear_faults h t = return_if_error (call_clear_faults h.clear_faults_client t) (reactivate h)

  unfoldable pub shutdown : Hwm → Trace → Status × Trace
  unfolding reset_clock_if_set set_component
  shutdown h t = return_if_error (reset_clock_if_set h t) λ t1.
      return_if_error
        (call_switch_controller services h.params.controllers_to_deactivate
          h.params.controllers_to_activate t1)
        (set_component "Failed to deactivate hardware component '" primary_state_inactive h)

unfoldable pub activate : Hwm → Status
activate h = ok_status

unfoldable pub deactivate : Hwm → Status
deactivate h = ok_status

-- The two operations differ in the word of the message.
unless_faulted : String → Hwm → Status
unless_faulted what h =
    if h.latest_operational_status.state == faulted
    then status failed_precondition (concat (what ∷ h.latest_operational_status.message ∷ ")" ∷ []))
    else ok_status

unfoldable pub enable_motion : Hwm → Status
unfolding unless_faulted
enable_motion = unless_faulted "Cannot enable motion while faulted ("

unfoldable pub disable_motion : Hwm → Status
unfolding unless_faulted
disable_motion = unless_faulted "Cannot disable motion while faulted ("
