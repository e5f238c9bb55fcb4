-- ===== src/Hwm/Transitions/Success.antt =====
-- When the services answer as they should the three operations succeed, and motion is enabled
-- exactly when no fault is reported.
use icon_hwm_controller.Prelude.{
  String, ◌≡◌, refl, ◌≢◌, ◌↔◌, inl, inr, true, List, ◌∷◌, Option, none, some, arith, Bool-cases,
  if◌then◌else◌, ◌==◌, empty_str,
}
use icon_hwm_controller.Status.{Status, StatusCode, is_ok}
use icon_hwm_controller.OperationalStatus.{OperationalStatus, faulted}
use icon_hwm_controller.Hwm.Params.{Hwm, on_operational_status}
use icon_hwm_controller.Hwm.Services.{
  Services, Trace, Client, PrimaryState, TriggerResponse, primary_state_active,
  primary_state_inactive, call_switch_controller, call_set_hw_state, reset_clock,
  clear_faults_request,
}
use icon_hwm_controller.Hwm.Transitions.{
  return_if_error, reset_clock_if_set, set_component, activate_controllers, call_clear_faults,
  reactivate, prepare, clear_faults, shutdown, enable_motion, disable_motion,
}

-- Every service is up, answers in time, and accepts; the clock can be reset.
pub record IsHealthy (services : Services) : Type 0 where
  pub up : (t : Trace) (c : Client) → services.wait_for_service t c ≡ true
  pub triggers :
      (t : Trace)
      → (r : TriggerResponse) × (services.trigger_response t ≡ some r) × (r.success ≡ true)
  pub sets_state : (t : Trace) → services.set_hw_state_response t ≡ some true
  pub switches : (t : Trace) → services.switch_controller_response t ≡ some true
  pub resets : (t : Trace) → is_ok (services.clock_response t) ≡ true

-- The operation ended in success.
record Succeeds (r : Status × Trace) : Type 0 where
  fine : is_ok r.0 ≡ true

return_if_error-Succeeds :
    (r : Status × Trace) (rest : Trace → Status × Trace)
    → Succeeds r
    → ((t : Trace) → Succeeds (rest t))
    → Succeeds (return_if_error r rest)
return_if_error-Succeeds (s, t) rest a b = rw (a.fine, return_if_error) (b t)

module _ (services : Services) (v : IsHealthy services) where
  call_switch_controller-Succeeds :
      (a d : List String) (t : Trace) → Succeeds (call_switch_controller services a d t)
  unfolding call_switch_controller
  call_switch_controller-Succeeds a d t = record { fine = rw (v.up t _, v.switches _) }

  set_component-Succeeds :
      (what : String) (state : PrimaryState) (h : Hwm) (t : Trace)
      → Succeeds (set_component services what state h t)
  unfolding set_component call_set_hw_state
  set_component-Succeeds what state h t =
      elim (Bool-cases (empty_str h.params.hardware_component_name)) [
        | inl unset ↦ record { fine = rw unset }
        | inr set ↦ record { fine = rw (set, v.up t _, v.sets_state _) }
      ]

  reset_clock_if_set-Succeeds : (h : Hwm) (t : Trace) → Succeeds (reset_clock_if_set services h t)
  unfolding reset_clock_if_set reset_clock
  reset_clock_if_set-Succeeds h t = elim (Bool-cases h.params.clock) [
    | inl set ↦ record { fine = rw set (v.resets _) }
    | inr unset ↦ record { fine = rw unset }
  ]

  call_clear_faults-Succeeds :
      (client : Option String) (t : Trace) → Succeeds (call_clear_faults services client t)
  unfolding call_clear_faults
  call_clear_faults-Succeeds none t = record { fine = refl }
  call_clear_faults-Succeeds (some service) t =
      let (r, answered, success) = v.triggers (clear_faults_request service ∷ t) in
      record { fine = rw (v.up t _, answered, success) }

  activate_controllers-Succeeds :
      (h : Hwm) (t : Trace) → Succeeds (activate_controllers services h t)
  unfolding activate_controllers
  activate_controllers-Succeeds h t = call_switch_controller-Succeeds _ _ t

  prepare-Succeeds : (h : Hwm) (t : Trace) → Succeeds (prepare services h t)
  unfolding prepare
  prepare-Succeeds h t = return_if_error-Succeeds _ _ (reset_clock_if_set-Succeeds h t) λ t1.
      return_if_error-Succeeds _ _
        (set_component-Succeeds "Failed to activate hardware component '" primary_state_active h t1)
        (activate_controllers-Succeeds h)

  reactivate-Succeeds : (h : Hwm) (t : Trace) → Succeeds (reactivate services h t)
  unfolding reactivate
  reactivate-Succeeds h t =
      return_if_error-Succeeds _ _
        (set_component-Succeeds "ClearFault: Failed to activate hardware component '"
          primary_state_active h t)
        (activate_controllers-Succeeds h)

  clear_faults-Succeeds : (h : Hwm) (t : Trace) → Succeeds (clear_faults services h t)
  unfolding clear_faults
  clear_faults-Succeeds h t =
      return_if_error-Succeeds _ _ (call_clear_faults-Succeeds h.clear_faults_client t)
        (reactivate-Succeeds h)

  shutdown-Succeeds : (h : Hwm) (t : Trace) → Succeeds (shutdown services h t)
  unfolding shutdown
  shutdown-Succeeds h t = return_if_error-Succeeds _ _ (reset_clock_if_set-Succeeds h t) λ t1.
      return_if_error-Succeeds _ _
        (call_switch_controller-Succeeds h.params.controllers_to_deactivate
          h.params.controllers_to_activate t1)
        (set_component-Succeeds "Failed to deactivate hardware component '" primary_state_inactive
          h)

  -- Where every service answers as it should and the clock can be reset, `Prepare`, `ClearFaults` and
  -- `Shutdown` succeed for every configuration of the module and whatever was sent before.
  pub transitions_succeed :
      (h : Hwm) (t : Trace)
      → (is_ok (prepare services h t).0 ≡ true)
        × (is_ok (clear_faults services h t).0 ≡ true)
        × (is_ok (shutdown services h t).0 ≡ true)
  transitions_succeed h t =
      ((prepare-Succeeds h t).fine, (clear_faults-Succeeds h t).fine, (shutdown-Succeeds h t).fine)

-- After a status has come in, both motion requests succeed exactly when it does not report a fault:
-- their code is then `ok`, and `failed_precondition` otherwise. A disabled robot is not refused.
pub motion_gate :
    (h : Hwm) (msg : OperationalStatus)
    → let h' = on_operational_status h msg in
      ((is_ok (enable_motion h') ≡ true) ↔ (msg.state ≢ faulted))
      × ((is_ok (disable_motion h') ≡ true) ↔ (msg.state ≢ faulted))
      × ((enable_motion h').code
          ≡ (if msg.state == faulted then StatusCode.failed_precondition else StatusCode.ok))
      × ((disable_motion h').code ≡ (enable_motion h').code)
unfolding enable_motion disable_motion on_operational_status
motion_gate h msg = ground arith
