-- ===== src/Hwm/Transitions/Requests.antt =====
-- Which requests `Prepare`, `ClearFaults` and `Shutdown` send, and in which order.
use icon_hwm_controller.Prelude.{
  String, ◌≡◌, refl, sym, ◌∙◌, inl, inr, List, [], ◌∷◌, Option, none, some, Bool-cases, empty_str,
}
use icon_hwm_controller.Status.{Status, is_ok}
use icon_hwm_controller.Hwm.Params.{Hwm}
use icon_hwm_controller.Hwm.Services.{
  Services, Trace, PrimaryState, primary_state_active, primary_state_inactive, best_effort,
  clock_reset, clear_faults_request, set_hw_state_request, switch_controller_request,
  switch_controller_client, set_hw_state_client, clear_faults_client, call_switch_controller,
  call_set_hw_state, reset_clock,
}
use icon_hwm_controller.Hwm.Transitions.{
  reset_clock_if_set, set_component, call_clear_faults, reactivate, prepare, clear_faults, shutdown,
}
use icon_hwm_controller.Hwm.Transitions.Sent.{
  clock_plan, component_plan, vendor_plan, switch_plan, Sent-nothing, Sent-refused, Sent-one,
  Sent-then, prepare_plan, reactivation_plan, clear_faults_plan, shutdown_plan, Sent,
}

module _ (services : Services) where
  call_switch_controller-Sent :
      (activate deactivate : List String) (t : Trace)
      → Sent
          (switch_plan activate deactivate)
          t
          (call_switch_controller services activate deactivate t)
  unfolding call_switch_controller
  call_switch_controller-Sent activate deactivate t =
      elim (Bool-cases (services.wait_for_service t switch_controller_client)) [
        | inl up ↦ rw up (Sent-one (switch_controller_request activate deactivate best_effort) t _)
        | inr down ↦
            rw down
              (Sent-refused (switch_controller_request activate deactivate best_effort) t _ refl)
      ]

  call_set_hw_state-Sent :
      (name : String) (state : PrimaryState) (t : Trace)
      → Sent (set_hw_state_request name state ∷ []) t (call_set_hw_state services name state t)
  unfolding call_set_hw_state
  call_set_hw_state-Sent name state t =
      elim (Bool-cases (services.wait_for_service t set_hw_state_client)) [
        | inl up ↦ rw up (Sent-one (set_hw_state_request name state) t _)
        | inr down ↦ rw down (Sent-refused (set_hw_state_request name state) t _ refl)
      ]

  -- A new message does not change what was sent.
  Sent-reworded :
      (plan t : Trace) (r : Status × Trace) (s : Status)
      → is_ok s ≡ is_ok r.0
      → Sent plan t r
      → Sent plan t (s, r.1)
  Sent-reworded plan t r s same v = record {
    unsent = v.unsent;
    sent = v.sent;
    parts = v.parts;
    trace = v.trace;
    complete = λ o. v.complete (sym same ∙ o);
  }

  set_component-Sent :
      (what : String) (state : PrimaryState) (h : Hwm) (t : Trace)
      → Sent (component_plan state h) t (set_component services what state h t)
  unfolding set_component
  set_component-Sent what state h t =
      let call = call_set_hw_state services h.params.hardware_component_name state t in
      let sent = call_set_hw_state-Sent h.params.hardware_component_name state t in
      elim (Bool-cases (empty_str h.params.hardware_component_name)) [
        | inl unset ↦ rw unset (Sent-nothing t)
        | inr set ↦ rw set (elim (Bool-cases (is_ok call.0)) [
          | inl fine ↦ rw fine sent
          | inr failed ↦ rw failed (Sent-reworded _ t call _ refl sent)
        ])
      ]

  reset_clock_if_set-Sent :
      (h : Hwm) (t : Trace) → Sent (clock_plan h) t (reset_clock_if_set services h t)
  unfolding reset_clock_if_set reset_clock
  reset_clock_if_set-Sent h t = elim (Bool-cases h.params.clock) [
    | inl set ↦ rw set (Sent-one (clock_reset 20) t _)
    | inr unset ↦ rw unset (Sent-nothing t)
  ]

  call_clear_faults-Sent :
      (client : Option String) (t : Trace)
      → Sent (vendor_plan client) t (call_clear_faults services client t)
  unfolding call_clear_faults
  call_clear_faults-Sent none t = Sent-nothing t
  call_clear_faults-Sent (some service) t =
      elim (Bool-cases (services.wait_for_service t clear_faults_client)) [
        | inl up ↦ rw up (Sent-one (clear_faults_request service) t _)
        | inr down ↦ rw down (Sent-refused (clear_faults_request service) t _ refl)
      ]

  -- `Prepare`: the clock reset, the activation of the component, and the controller switch.
  pub prepare-Sent : (h : Hwm) (t : Trace) → Sent (prepare_plan h) t (prepare services h t)
  unfolding prepare
  prepare-Sent h t =
      Sent-then (clock_plan h) _ t (reset_clock_if_set services h t) _ (reset_clock_if_set-Sent h t)
        λ t1.
          Sent-then _ _ t1 _ _
            (set_component-Sent "Failed to activate hardware component '" primary_state_active h t1)
            (call_switch_controller-Sent h.params.controllers_to_activate
              h.params.controllers_to_deactivate)

  pub reactivate-Sent :
      (h : Hwm) (t : Trace) → Sent (reactivation_plan h) t (reactivate services h t)
  unfolding reactivate
  reactivate-Sent h t =
      Sent-then _ _ t _ _
        (set_component-Sent "ClearFault: Failed to activate hardware component '"
          primary_state_active h t)
        (call_switch_controller-Sent h.params.controllers_to_activate
          h.params.controllers_to_deactivate)

  -- `ClearFaults`: the vendor's trigger, the activation of the component, and the controller switch.
  pub clear_faults-Sent :
      (h : Hwm) (t : Trace) → Sent (clear_faults_plan h) t (clear_faults services h t)
  unfolding clear_faults
  clear_faults-Sent h t =
      Sent-then (vendor_plan h.clear_faults_client) _ t
        (call_clear_faults services h.clear_faults_client t) _
        (call_clear_faults-Sent h.clear_faults_client t) (reactivate-Sent h)

  -- `Shutdown`: the clock reset, the opposite controller switch, and the deactivation.
  pub shutdown-Sent : (h : Hwm) (t : Trace) → Sent (shutdown_plan h) t (shutdown services h t)
  unfolding shutdown
  shutdown-Sent h t =
      Sent-then (clock_plan h) _ t (reset_clock_if_set services h t) _ (reset_clock_if_set-Sent h t)
        λ t1.
          Sent-then _ _ t1 _ _
            (call_switch_controller-Sent h.params.controllers_to_deactivate
              h.params.controllers_to_activate t1)
            (set_component-Sent "Failed to deactivate hardware component '" primary_state_inactive
              h)

  -- `Prepare` sends, in this order and as far as each step succeeds, the clock reset, the activation of
  -- the hardware component and the switch to the controllers to activate; `ClearFaults` the vendor's
  -- trigger, the activation and the switch; `Shutdown` the clock reset, the opposite switch and the
  -- deactivation. Each sends all of it if it succeeds.
  pub transitions-Sent :
      (h : Hwm) (t : Trace)
      → Sent (prepare_plan h) t (prepare services h t)
        × Sent (clear_faults_plan h) t (clear_faults services h t)
        × Sent (shutdown_plan h) t (shutdown services h t)
  transitions-Sent h t = (prepare-Sent h t, clear_faults-Sent h t, shutdown-Sent h t)
