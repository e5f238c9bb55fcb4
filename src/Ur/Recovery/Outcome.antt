-- ===== src/Ur/Recovery/Outcome.antt =====
-- When the recovery of the Universal Robots node succeeds, and what it reports.
use icon_hwm_controller.Prelude.{
  ℤ, ◌≡◌, ◌⊎◌, ◌↔◌, inl, inr, refl, Bool, true, false, ◌||◌, ◌∷◌, some, arith, empty_str,
  empty_str-concat, Bool-cases,
}
use icon_hwm_controller.Status.{Status, StatusCode, is_ok}
use icon_hwm_controller.Ur.Status.{SafetyMode, RobotMode}
use icon_hwm_controller.Ur.Node.{Node}
use icon_hwm_controller.Ur.Recovery.{
  Event, set_mode_goal, get_result_request, Trace, TriggerResponse, WrappedResult, Services,
  Clients, call_trigger_service, call_set_mode_action, prepare_recovery, failure_message,
  clear_faults, clear_faults_callback,
}

module _ (services : Services) where
  -- The action succeeds exactly when its server is there, the goal is accepted in time, and a
  -- result comes in time that is a success by its code and by its content.
  pub record ActionSucceeds (goal : Event) (t : Trace) : Type 0 where
    pub reachable : (services.action_server_is_ready t || services.wait_for_action_server t) ≡ true
    pub accepted : services.goal_accepted (goal ∷ t) ≡ some true
    pub wrapped : WrappedResult
    pub response : TriggerResponse
    pub arrived : services.action_result (get_result_request ∷ goal ∷ t) ≡ some wrapped
    pub by_code : wrapped.succeeded ≡ true
    pub by_content : wrapped.result ≡ some response
    pub success : response.success ≡ true

  succeeds_of_ok :
      (target : ℤ) (stop play : Bool) (t : Trace)
      → is_ok (call_set_mode_action services true target stop play t).0 ≡ true
      → ActionSucceeds (set_mode_goal target stop play) t
  unfolding call_set_mode_action
  succeeds_of_ok target stop play t e = ground arith

  ok_of_succeeds :
      (target : ℤ) (stop play : Bool) (t : Trace)
      → ActionSucceeds (set_mode_goal target stop play) t
      → is_ok (call_set_mode_action services true target stop play t).0 ≡ true
  unfolding call_set_mode_action
  ok_of_succeeds target stop play t v = ground arith

  -- A call of the action, with its client there, succeeds exactly when its server is there, the goal
  -- is accepted in time, and a result comes in time that is a success by its code and by its content.
  pub set_mode_iff :
      (target : ℤ) (stop play : Bool) (t : Trace)
      → (is_ok (call_set_mode_action services true target stop play t).0 ≡ true)
        ↔ ActionSucceeds (set_mode_goal target stop play) t
  set_mode_iff target stop play t =
      (succeeds_of_ok target stop play t, ok_of_succeeds target stop play t)

  module _ (sm : SafetyMode) (rm : RobotMode) (clients : Clients) where
    abbrev pub set_mode_call : Node → Trace → Status × Trace
    set_mode_call before t =
        call_set_mode_action services clients.set_mode_action_client rm.running true true
          (prepare_recovery services sm rm clients before.robot_status t)

    -- The call that sends the program again, after the brakes are released.
    abbrev pub resend_call : Node → Trace → Status × Trace
    resend_call before t =
        call_trigger_service services clients.resend_robot_program clients.service_timeout
          (call_trigger_service services clients.brake_release clients.service_timeout
            (set_mode_call before t).1).1

    -- The recovery succeeds exactly when `SetMode` did or the program could be sent again; any
    -- other outcome is an internal error.
    pub recovers_iff :
        (before after : Node) (t : Trace)
        → ((is_ok (clear_faults services sm rm clients before after t).0 ≡ true)
            ↔ ((is_ok (set_mode_call before t).0 ≡ true) ⊎ (is_ok (resend_call before t).0 ≡ true)))
          × ((is_ok (clear_faults services sm rm clients before after t).0 ≡ true)
              ⊎ ((clear_faults services sm rm clients before after t).0.code ≡ StatusCode.internal))
    unfolding clear_faults
    recovers_iff before after t = ground arith

    failure_message-ne-empty :
        (a b : Status) → empty_str (failure_message services sm rm clients a b) ≡ false
    unfolding failure_message
    failure_message-ne-empty a b =
        empty_str-concat "Neither SetMode nor resend_robot_program were able to clear the fault." _
          refl

    failure_text :
        (before after : Node) (t : Trace)
        → let c = clear_faults services sm rm clients before after t in
          is_ok c.0 ≡ false → empty_str c.0.message ≡ false
    unfolding clear_faults
    failure_text before after t bad = elim (Bool-cases (is_ok (set_mode_call before t).0)) [
      | inl fine ↦ absurd (ground arith)
      | inr failed ↦ elim (Bool-cases (is_ok (resend_call before t).0)) [
        | inl fine ↦ absurd (ground arith)
        | inr lost ↦
            rw (failed, lost)
              (failure_message-ne-empty (set_mode_call before t).0 (resend_call before t).0)
      ]
    ]

    -- The answer of the service is the outcome of the recovery, and never without a message.
    pub clear_faults_callback_answer :
        (before after : Node) (t : Trace)
        → let r = clear_faults_callback services sm rm clients before after t in
          let c = clear_faults services sm rm clients before after t in
          (r.0.success ≡ is_ok c.0) × (r.1 ≡ c.1) × (empty_str r.0.message ≡ false)
    unfolding clear_faults_callback
    clear_faults_callback_answer before after t =
        elim (Bool-cases (is_ok (clear_faults services sm rm clients before after t).0)) [
          | inl fine ↦ (refl, refl, rw fine)
          | inr failed ↦ (refl, refl, rw failed (failure_text before after t failed))
        ]
