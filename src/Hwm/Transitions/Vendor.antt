-- ===== src/Hwm/Transitions/Vendor.antt =====
-- How `ClearFaults` goes on by the answer of a vendor's service.
use icon_hwm_controller.Prelude.{
  String, ◌≡◌, ◌⊎◌, inl, inr, true, false, [], ◌∷◌, some, Bool-cases, concat, if◌then◌else◌,
}
use icon_hwm_controller.Status.{Status, is_ok, status, internal}
use icon_hwm_controller.Hwm.Params.{Hwm}
use icon_hwm_controller.Hwm.Services.{
  Services, Trace, TriggerResponse, clear_faults_client, clear_faults_request,
}
use icon_hwm_controller.Hwm.Transitions.{clear_faults, call_clear_faults}
use icon_hwm_controller.Hwm.Transitions.Sent.{Sent, reactivation_plan}
use icon_hwm_controller.Hwm.Transitions.Requests.{reactivate-Sent}

-- What the vendor's service answers when its recovery ends with a status.
abbrev pub answer : Status → String → TriggerResponse
answer s text = record { success = is_ok s; message = if is_ok s then text else s.message }

-- The module has ended its operation: nothing is sent after the trigger, and its status has this message
-- of the vendor.
abbrev pub EndsWith : String → Trace → String → Status × Trace → Type 0
EndsWith service t message r = r ≡ (
  status internal (concat ("ClearFaults service call failed with message: " ∷ message ∷ [])),
  clear_faults_request service ∷ t,
)

-- The module has sent, as far as each step succeeds, the activation of the component and the controller
-- switch.
abbrev pub Reactivates : Hwm → String → Trace → Status × Trace → Type 0
Reactivates h service t r = Sent (reactivation_plan h) (clear_faults_request service ∷ t) r

-- The module follows a vendor's recovery: it ends with one that failed, and reactivates the robot after
-- one that succeeded.
abbrev pub Follows : Hwm → String → Trace → Status → Status × Trace → Type 0
Follows h service t recovery r =
    ((is_ok recovery ≡ false) × EndsWith service t recovery.message r)
    ⊎ ((is_ok recovery ≡ true) × Reactivates h service t r)

module _ (services : Services) (h : Hwm) (service : String) (t : Trace) where
  -- The module has a client, whose service is there and answers this.
  pub record Answers (r : TriggerResponse) : Type 0 where
    pub client_set : h.clear_faults_client ≡ some service
    pub up : services.wait_for_service t clear_faults_client ≡ true
    pub response : services.trigger_response (clear_faults_request service ∷ t) ≡ some r

  pub clear_faults-Follows :
      (recovery : Status) (text : String)
      → Answers (answer recovery text)
      → Follows h service t recovery (clear_faults services h t)
  unfolding clear_faults call_clear_faults
  clear_faults-Follows recovery text v = elim (Bool-cases (is_ok recovery)) [
    | inl fine ↦
        inr (fine, rw (v.client_set, v.up, v.response, fine) (reactivate-Sent services h _))
    | inr failed ↦ inl (failed, rw (v.client_set, v.up, v.response, failed))
  ]

  module _ (recovery : Status) (text : String) (v : Answers (answer recovery text)) where
    pub clear_faults-EndsWith :
        is_ok recovery ≡ false → EndsWith service t recovery.message (clear_faults services h t)
    clear_faults-EndsWith bad = elim (clear_faults-Follows recovery text v) [
      | inl (_, ended) ↦ ended
      | inr (fine, _) ↦ cc
    ]

    pub clear_faults-Reactivates :
        is_ok recovery ≡ true → Reactivates h service t (clear_faults services h t)
    clear_faults-Reactivates fine = elim (clear_faults-Follows recovery text v) [
      | inl (bad, _) ↦ cc
      | inr (_, sent) ↦ sent
    ]
