-- ===== src/Fanuc/Recovery/Authority.antt =====
-- The order of the FANUC alarm recovery: motion control is asked for only after the alarms were
-- reset.
use icon_hwm_controller.Prelude.{
  pos, String, ◌≡◌, ◌⊎◌, ◌↔◌, inl, inr, true, false, ◌∷◌, some, arith, eqb_ℤ_iff, Bool-cases,
  Option-cases,
}
use icon_hwm_controller.Status.{Status, is_ok}
use icon_hwm_controller.Fanuc.Recovery.{
  Client, reset_client, switch_control_state_client, Event, reset_request, slept,
  switch_control_state_request, Trace, Services, call, clear_faults,
}

module _ (services : Services) where
  -- A call succeeds: the service is there, and answers in time with the code 0.
  pub record Answers (client : Client) (request : Event) (t : Trace) : Type 0 where
    pub up : services.wait_for_service t client ≡ true
    pub zero_code : services.response (request ∷ t) ≡ some (pos 0)

  call_iff :
      (client : Client) (request : Event) (failed : String) (t : Trace)
      → (is_ok (call services client request failed t).0 ≡ true) ↔ Answers client request t
  unfolding call
  call_iff client request failed t = elim (Bool-cases (services.wait_for_service t client)) [
    | inr down ↦ ground arith
    | inl up ↦ elim (Option-cases (services.response (request ∷ t))) [
      | inl late ↦ ground arith
      | inr (result, came) ↦ ground (arith, eqb_ℤ_iff result (pos 0))
    ]
  ]

  -- A call that succeeds has been sent.
  call_sent :
      (client : Client) (request : Event) (failed : String) (t : Trace)
      → is_ok (call services client request failed t).0 ≡ true
      → (call services client request failed t).1 ≡ request ∷ t
  unfolding call
  call_sent client request failed t fine = ground arith

  abbrev pub after_reset : Trace → Trace
  after_reset t = slept 200 ∷ reset_request ∷ t

  abbrev reset_call : Trace → Status × Trace
  reset_call = call services reset_client reset_request "Reset service failed with error code: "

  abbrev switch_call : Trace → Status × Trace
  switch_call =
      call services switch_control_state_client (switch_control_state_request 1)
        "Switching control state failed with error code: "

  after_success :
      (t : Trace)
      → is_ok (reset_call t).0 ≡ true
      → clear_faults services t ≡ switch_call (after_reset t)
  unfolding clear_faults
  after_success t fine = let sent = call_sent reset_client reset_request _ t fine in rw (fine, sent)

  after_failure :
      (t : Trace) → is_ok (reset_call t).0 ≡ false → clear_faults services t ≡ reset_call t
  unfolding clear_faults
  after_failure t bad = rw bad

  -- The recovery succeeds exactly when the reset succeeds and then, 200 ms later, the request for
  -- motion control does.
  pub recovery_iff :
      (t : Trace)
      → (is_ok (clear_faults services t).0 ≡ true) ↔ (
          Answers reset_client reset_request t
          × Answers switch_control_state_client (switch_control_state_request 1) (after_reset t))
  recovery_iff t =
      let reset = call_iff reset_client reset_request "Reset service failed with error code: " t in
      let switch =
        call_iff switch_control_state_client (switch_control_state_request 1)
          "Switching control state failed with error code: " (after_reset t) in
      elim (Bool-cases (is_ok (reset_call t).0)) [
        | inl fine ↦ rw (after_success t fine) (λ e. (reset.0 fine, switch.0 e), λ v. switch.1 v.1)
        | inr bad ↦ rw (after_failure t bad) (λ e. absurd (ground arith), λ v. reset.1 v.0)
      ]

  call_trace :
      (client : Client) (request : Event) (failed : String) (t : Trace)
      → ((call services client request failed t).1 ≡ t)
        ⊎ ((call services client request failed t).1 ≡ request ∷ t)
  unfolding call
  call_trace client request failed t = ground arith

  abbrev ResetAnswers : Trace → Type 0
  ResetAnswers t = Answers reset_client reset_request t

  abbrev SwitchAnswers : Trace → Type 0
  SwitchAnswers t =
      Answers switch_control_state_client (switch_control_state_request 1) (after_reset t)

  -- The three ways in which a recovery goes, each with what it has sent. The alarms were reset and motion
  -- control was given back:
  abbrev pub Restored : Trace → Type 0
  Restored t =
      ResetAnswers t
      × SwitchAnswers t
      × ((clear_faults services t).1 ≡ switch_control_state_request 1 ∷ after_reset t)

  -- or the alarms were reset, and motion control was not given back:
  abbrev pub Unswitched : Trace → Type 0
  Unswitched t =
      ResetAnswers t
      × (¬ SwitchAnswers t)
      × (((clear_faults services t).1 ≡ after_reset t)
          ⊎ ((clear_faults services t).1 ≡ switch_control_state_request 1 ∷ after_reset t))

  -- or the alarms were not reset, and motion control was not asked for.
  abbrev pub Unreset : Trace → Type 0
  Unreset t =
      (¬ ResetAnswers t)
      × (((clear_faults services t).1 ≡ t) ⊎ ((clear_faults services t).1 ≡ reset_request ∷ t))

  -- A recovery succeeds in the first way, and fails in the others.
  pub recovery-Ways :
      (t : Trace)
      → ((is_ok (clear_faults services t).0 ≡ true) × Restored t)
        ⊎ ((is_ok (clear_faults services t).0 ≡ false) × (Unswitched t ⊎ Unreset t))
  recovery-Ways t =
      let reset = call_iff reset_client reset_request "Reset service failed with error code: " t in
      let switch =
        call_iff switch_control_state_client (switch_control_state_request 1)
          "Switching control state failed with error code: " (after_reset t) in
      elim (Bool-cases (is_ok (reset_call t).0)) [
        | inr bad ↦
            let no_reset : ¬ ResetAnswers t = λ v. cc (reset.1 v) in
            rw (after_failure t bad)
              (inr (bad, inr (no_reset, call_trace reset_client reset_request _ t)))
        | inl fine ↦
            rw (after_success t fine) (elim (Bool-cases (is_ok (switch_call (after_reset t)).0)) [
              | inl given ↦ inl (
                given,
                (
                  reset.0 fine,
                  switch.0 given,
                  call_sent switch_control_state_client _ _ (after_reset t) given,
                ),
              )
              | inr kept ↦ inr (
                kept,
                inl (
                  reset.0 fine,
                  λ v. cc (switch.1 v),
                  call_trace switch_control_state_client _ _ (after_reset t),
                ),
              )
            ])
      ]
