-- ===== src/Hwm/Transitions/Sent.antt =====
-- Plans of requests, and what it is to have sent the older part of one.
use mathlib.Core.List.{append_assoc}
use icon_hwm_controller.Prelude.{
  String, ◌≡◌, refl, sym, ap, ◌∙◌, inl, inr, true, false, List, [], ◌∷◌, ◌++◌, Option, none, some,
  if◌then◌else◌, Bool-cases, empty_str,
}
use icon_hwm_controller.Status.{Status, is_ok, ok_status}
use icon_hwm_controller.Hwm.Params.{Hwm}
use icon_hwm_controller.Hwm.Services.{
  Event, Trace, PrimaryState, primary_state_active, primary_state_inactive, best_effort,
  clock_reset, clear_faults_request, set_hw_state_request, switch_controller_request,
}
use icon_hwm_controller.Hwm.Transitions.{return_if_error}

-- The requests of each step, the newest first as in a trace.
abbrev pub clock_plan : Hwm → Trace
clock_plan h = if h.params.clock then clock_reset 20 ∷ [] else []

abbrev pub component_plan : PrimaryState → Hwm → Trace
component_plan state h =
    if empty_str h.params.hardware_component_name
    then []
    else set_hw_state_request h.params.hardware_component_name state ∷ []

abbrev pub vendor_plan : Option String → Trace
vendor_plan none = []
vendor_plan (some service) = clear_faults_request service ∷ []

abbrev pub switch_plan : List String → List String → Trace
switch_plan activate deactivate = switch_controller_request activate deactivate best_effort ∷ []

abbrev pub prepare_plan : Hwm → Trace
prepare_plan h =
    (switch_plan h.params.controllers_to_activate h.params.controllers_to_deactivate
      ++ component_plan primary_state_active h)
    ++ clock_plan h

abbrev pub reactivation_plan : Hwm → Trace
reactivation_plan h =
    switch_plan h.params.controllers_to_activate h.params.controllers_to_deactivate
    ++ component_plan primary_state_active h

abbrev pub clear_faults_plan : Hwm → Trace
clear_faults_plan h = reactivation_plan h ++ vendor_plan h.clear_faults_client

abbrev pub shutdown_plan : Hwm → Trace
shutdown_plan h =
    (component_plan primary_state_inactive h
      ++ switch_plan h.params.controllers_to_deactivate h.params.controllers_to_activate)
    ++ clock_plan h

-- An operation has sent the older part of its plan, and all of it if it succeeded.
pub record Sent (plan t : Trace) (r : Status × Trace) : Type 0 where
  pub unsent : Trace
  pub sent : Trace
  pub parts : plan ≡ unsent ++ sent
  pub trace : r.1 ≡ sent ++ t
  pub complete : is_ok r.0 ≡ true → unsent ≡ []

pub Sent-nothing : (t : Trace) → Sent [] t (ok_status, t)
Sent-nothing t = record { unsent = []; sent = []; parts = refl; trace = refl; complete = λ _. refl }

pub Sent-refused : (e : Event) (t : Trace) (s : Status) → is_ok s ≡ false → Sent (e ∷ []) t (s, t)
Sent-refused e t s h = record {
  unsent = e ∷ [];
  sent = [];
  parts = refl;
  trace = refl;
  complete = λ o. cc;
}

pub Sent-one : (e : Event) (t : Trace) (s : Status) → Sent (e ∷ []) t (s, e ∷ t)
Sent-one e t s = record {
  unsent = [];
  sent = e ∷ [];
  parts = refl;
  trace = refl;
  complete = λ _. refl;
}

-- Two steps, the second only after a success of the first.
pub Sent-then :
    (p q t : Trace) (r : Status × Trace) (rest : Trace → Status × Trace)
    → Sent p t r
    → ((t' : Trace) → Sent q t' (rest t'))
    → Sent (q ++ p) t (return_if_error r rest)
Sent-then p q t (s, t1) rest a b = elim (Bool-cases (is_ok s)) [
  | inl fine ↦
      let next = b t1 in
      let whole : p ≡ a.sent = a.parts ∙ ap (λ (l : Trace). l ++ a.sent) (a.complete fine) in
      rw (fine, return_if_error)
        (record {
          unsent = next.unsent;
          sent = next.sent ++ a.sent;
          parts =
              ap (λ (l : Trace). l ++ p) next.parts
              ∙ append_assoc next.unsent next.sent p
              ∙ ap (λ (l : Trace). next.unsent ++ (next.sent ++ l)) whole;
          trace =
              next.trace
              ∙ ap (λ (l : Trace). next.sent ++ l) a.trace
              ∙ sym (append_assoc next.sent a.sent t);
          complete = next.complete;
        })
  | inr failed ↦
      rw (failed, return_if_error)
        (record {
          unsent = q ++ a.unsent;
          sent = a.sent;
          parts = ap (λ (l : Trace). q ++ l) a.parts ∙ sym (append_assoc q a.unsent a.sent);
          trace = a.trace;
          complete = λ o. cc;
        })
]
