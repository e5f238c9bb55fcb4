-- ===== src/Hwm/Transitions/Sequence.antt =====
-- The three transitions are their sequences of requests.
use icon_hwm_controller.Prelude.{
  String, ◌≡◌, refl, sym, ap, ◌∙◌, inl, inr, List, [], ◌∷◌, ◌++◌, Option, none, some, if◌then◌else◌,
  Bool-cases, arith,
}
use icon_hwm_controller.Status.{Status, is_ok, ok_status}
use icon_hwm_controller.Hwm.Params.{Hwm}
use icon_hwm_controller.Hwm.Services.{
  Event, Services, Trace, PrimaryState, primary_state_active, primary_state_inactive, best_effort,
  switch_controller_request, call_switch_controller, call_set_hw_state, reset_clock,
}
use icon_hwm_controller.Hwm.Transitions.{
  return_if_error, reset_clock_if_set, set_component, activate_controllers, call_clear_faults,
  reactivate, prepare, clear_faults, shutdown,
}
use icon_hwm_controller.Hwm.Transitions.Steps.{
  clock_steps, component_steps, vendor_steps, start_steps, prepare_steps, clear_faults_steps,
  shutdown_steps, request, perform, activating, clearing, deactivating,
}

-- A success without its text.
abbrev plain : Status × Trace → Status × Trace
plain (s, t) = if is_ok s then (ok_status, t) else (s, t)

module _ (services : Services) (what : String) where
  perform-append :
      (ds es : List Event) (t : Trace)
      → perform services what (ds ++ es) t
        ≡ return_if_error (perform services what ds t) (perform services what es)
  unfolding perform
  perform-append [] es t = refl
  perform-append (e ∷ ds) es t = elim (Bool-cases (is_ok (request services what e t).0)) [
    | inl fine ↦ rw fine (perform-append ds es (request services what e t).1)
    | inr bad ↦ rw (bad, bad)
  ]

  -- An operation does these steps, and says so exactly, or up to the text of its success.
  Does : (Trace → Status × Trace) → List Event → Type 0
  Does operation es = (t : Trace) → operation t ≡ perform services what es t

  DoesPlainly : (Trace → Status × Trace) → List Event → Type 0
  DoesPlainly operation es = (t : Trace) → plain (operation t) ≡ perform services what es t

  return_if_error-plain :
      (r : Status × Trace) (rest : Trace → Status × Trace)
      → return_if_error (plain r) rest ≡ return_if_error r rest
  return_if_error-plain (s, t) rest = elim (Bool-cases (is_ok s)) [
    | inl fine ↦ rw fine refl
    | inr bad ↦ rw (bad, bad) refl
  ]

  return_if_error-ap :
      (r : Status × Trace) (rest rest' : Trace → Status × Trace)
      → ((t : Trace) → rest t ≡ rest' t)
      → return_if_error r rest ≡ return_if_error r rest'
  return_if_error-ap (s, t) rest rest' v = elim (Bool-cases (is_ok s)) [
    | inl fine ↦ rw fine (v t)
    | inr bad ↦ rw bad
  ]

  return_if_error-Does :
      (first rest : Trace → Status × Trace) (ds es : List Event)
      → DoesPlainly first ds
      → Does rest es
      → Does (λ t. return_if_error (first t) rest) (ds ++ es)
  unfolding Does DoesPlainly
  return_if_error-Does first rest ds es v w t =
      sym (return_if_error-plain (first t) rest)
      ∙ ap (λ (r : Status × Trace). return_if_error r rest) (v t)
      ∙ return_if_error-ap (perform services what ds t) rest (perform services what es) w
      ∙ sym (perform-append ds es t)

  perform-plain :
      (es : List Event) (t : Trace)
      → plain (perform services what es t) ≡ perform services what es t
  unfolding perform
  perform-plain [] t = refl
  perform-plain (e ∷ es) t = elim (Bool-cases (is_ok (request services what e t).0)) [
    | inl fine ↦ rw fine (perform-plain es (request services what e t).1)
    | inr bad ↦ rw (bad, bad)
  ]

  Does-Plainly : (f : Trace → Status × Trace) (es : List Event) → Does f es → DoesPlainly f es
  unfolding Does DoesPlainly
  Does-Plainly f es v t = ap plain (v t) ∙ perform-plain es t

  call_switch_controller-Does :
      (a d : List String)
      → Does (call_switch_controller services a d) (switch_controller_request a d best_effort ∷ [])
  unfolding call_switch_controller perform Does
  call_switch_controller-Does a d t = ground arith

  set_component-Does :
      (state : PrimaryState) (h : Hwm)
      → Does (set_component services what state h) (component_steps state h)
  unfolding set_component call_set_hw_state perform Does
  set_component-Does state h t = ground arith

  reset_clock_if_set-Does : (h : Hwm) → DoesPlainly (reset_clock_if_set services h) (clock_steps h)
  unfolding reset_clock_if_set reset_clock perform DoesPlainly
  reset_clock_if_set-Does h t = elim (Bool-cases h.params.clock) [
    | inl set ↦ rw set refl
    | inr unset ↦ rw unset
  ]

  call_clear_faults-Does :
      (client : Option String) → Does (call_clear_faults services client) (vendor_steps client)
  unfolding call_clear_faults perform Does
  call_clear_faults-Does none t = refl
  call_clear_faults-Does (some service) t = ground arith

  -- A component and the controllers, after another step.
  component_and_start-Does :
      (first : Trace → Status × Trace) (ds : List Event) (h : Hwm)
      → DoesPlainly first ds
      → Does
          (λ t. return_if_error (first t) λ t1.
            return_if_error
              (set_component services what primary_state_active h t1)
              (activate_controllers services h))
          (ds ++ (component_steps primary_state_active h ++ start_steps h))
  unfolding activate_controllers
  component_and_start-Does first ds h v = return_if_error-Does first _ ds _ v (
      return_if_error-Does _ _ _ _ (Does-Plainly _ _ (set_component-Does primary_state_active h)) (
        call_switch_controller-Does h.params.controllers_to_activate
          h.params.controllers_to_deactivate))

module _ (services : Services) where
  prepare-Does : (h : Hwm) → Does services activating (prepare services h) (prepare_steps h)
  unfolding prepare
  prepare-Does h =
      component_and_start-Does services activating _ _ h
        (reset_clock_if_set-Does services activating h)

  clear_faults-Does :
      (h : Hwm) → Does services clearing (clear_faults services h) (clear_faults_steps h)
  unfolding clear_faults reactivate
  clear_faults-Does h = component_and_start-Does services clearing _ _ h (
      Does-Plainly services clearing _ _
        (call_clear_faults-Does services clearing h.clear_faults_client))

  shutdown-Does : (h : Hwm) → Does services deactivating (shutdown services h) (shutdown_steps h)
  unfolding shutdown
  shutdown-Does h =
      return_if_error-Does services deactivating _ _ _ _
        (reset_clock_if_set-Does services deactivating h)
        (return_if_error-Does services deactivating _ _ _ _
          (Does-Plainly services deactivating _ _ (
            call_switch_controller-Does services deactivating h.params.controllers_to_deactivate
              h.params.controllers_to_activate))
          (set_component-Does services deactivating primary_state_inactive h))

  -- Whatever the services answer, `Prepare`, `ClearFaults` and `Shutdown` return the status of the first
  -- of their requests that cannot be sent, is refused or is not answered in time, with its text, and
  -- `OkStatus` when there is none; they have sent the requests up to that one and no other.
  pub transitions_in_sequence :
      (h : Hwm) (t : Trace)
      → (prepare services h t ≡ perform services activating (prepare_steps h) t)
        × (clear_faults services h t ≡ perform services clearing (clear_faults_steps h) t)
        × (shutdown services h t ≡ perform services deactivating (shutdown_steps h) t)
  unfolding Does
  transitions_in_sequence h t = (prepare-Does h t, clear_faults-Does h t, shutdown-Does h t)
