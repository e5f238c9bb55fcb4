-- ===== src/Hwm/Transitions/Steps.antt =====
-- `Prepare`, `ClearFaults` and `Shutdown` as sequences of requests, each of which stops at the first one that
-- goes wrong.
use icon_hwm_controller.Prelude.{
  String, Bool, true, false, List, [], ◌∷◌, ◌++◌, Option, none, some, if◌then◌else◌, concat,
  empty_str,
}
use icon_hwm_controller.Status.{
  Status, is_ok, ok_status, status, unavailable, deadline_exceeded, internal,
}
use icon_hwm_controller.Hwm.Params.{Hwm}
use icon_hwm_controller.Hwm.Services.{
  Event, Services, Trace, PrimaryState, TriggerResponse, primary_state_active,
  primary_state_inactive, best_effort, clock_reset, clear_faults_request, set_hw_state_request,
  switch_controller_request, switch_controller_client, set_hw_state_client, clear_faults_client,
}
use icon_hwm_controller.Hwm.Transitions.{return_if_error}

-- The requests of an operation, the first one first.
abbrev pub clock_steps : Hwm → List Event
clock_steps h = if h.params.clock then clock_reset 20 ∷ [] else []

abbrev pub component_steps : PrimaryState → Hwm → List Event
component_steps state h =
    if empty_str h.params.hardware_component_name
    then []
    else set_hw_state_request h.params.hardware_component_name state ∷ []

abbrev pub vendor_steps : Option String → List Event
vendor_steps none = []
vendor_steps (some service) = clear_faults_request service ∷ []

abbrev pub start_steps : Hwm → List Event
start_steps h =
    switch_controller_request h.params.controllers_to_activate h.params.controllers_to_deactivate
      best_effort
    ∷ []

abbrev pub stop_steps : Hwm → List Event
stop_steps h =
    switch_controller_request h.params.controllers_to_deactivate h.params.controllers_to_activate
      best_effort
    ∷ []

abbrev pub prepare_steps : Hwm → List Event
prepare_steps h = clock_steps h ++ (component_steps primary_state_active h ++ start_steps h)

abbrev pub clear_faults_steps : Hwm → List Event
clear_faults_steps h =
    vendor_steps h.clear_faults_client ++ (component_steps primary_state_active h ++ start_steps h)

abbrev pub shutdown_steps : Hwm → List Event
shutdown_steps h = clock_steps h ++ (stop_steps h ++ component_steps primary_state_inactive h)

-- A service that accepts or refuses, or gives no answer in time.
abbrev pub answered : String → String → Option Bool → Status
answered timeout refusal none = status deadline_exceeded timeout
answered timeout refusal (some true) = ok_status
answered timeout refusal (some false) = status internal refusal

abbrev pub triggered : Option TriggerResponse → Status
triggered none = status deadline_exceeded "ClearFaults service call timed out"
triggered (some r) =
    if r.success
    then ok_status
    else status internal
        (concat ("ClearFaults service call failed with message: " ∷ r.message ∷ []))

-- The text of what goes wrong with a component: what was wanted, which component, and why not.
abbrev pub named : String → String → Status → Status
named what name s =
    if is_ok s then s else status s.code (concat (what ∷ name ∷ "': " ∷ s.message ∷ []))

-- `what` begins the text of an error with the component.
module _ (services : Services) (what : String) where
  -- Whether a request can be sent, and the status when it cannot.
  abbrev pub sendable : Event → Trace → Bool
  sendable (clock_reset timeout) t = true
  sendable (clear_faults_request service) t = services.wait_for_service t clear_faults_client
  sendable (set_hw_state_request name state) t = services.wait_for_service t set_hw_state_client
  sendable (switch_controller_request a d strictness) t =
      services.wait_for_service t switch_controller_client

  abbrev pub unsent_status : Event → Status
  unsent_status (clock_reset timeout) = ok_status
  unsent_status (clear_faults_request service) =
      status unavailable "ClearFaults service not available"
  unsent_status (set_hw_state_request name state) =
      named what name (status unavailable "SetHardwareComponentState service not available")
  unsent_status (switch_controller_request a d strictness) =
      status deadline_exceeded "SwitchController service did not become available within 1 second"

  -- The status of a request that was sent, and is the newest of the trace.
  abbrev pub sent_status : Event → Trace → Status
  sent_status (clock_reset timeout) t = services.clock_response t
  sent_status (clear_faults_request service) t = triggered (services.trigger_response t)
  sent_status (set_hw_state_request name state) t = named what name (
      answered "SetHardwareComponentState timeout" "SetHardwareComponentState failed"
        (services.set_hw_state_response t))
  sent_status (switch_controller_request a d strictness) t =
      answered "SwitchController timeout" "SwitchController failed"
        (services.switch_controller_response t)

  abbrev pub request : Event → Trace → Status × Trace
  request e t = if sendable e t then (sent_status e (e ∷ t), e ∷ t) else (unsent_status e, t)

  -- The steps one after the other, up to the first that goes wrong: its status, and what was sent.
  unfoldable pub perform : List Event → Trace → Status × Trace
  perform [] t = (ok_status, t)
  perform (e ∷ es) t = return_if_error (request e t) (perform es)

-- The three beginnings of such a text.
abbrev pub activating : String
activating = "Failed to activate hardware component '"

abbrev pub clearing : String
clearing = "ClearFault: Failed to activate hardware component '"

abbrev pub deactivating : String
deactivating = "Failed to deactivate hardware component '"
