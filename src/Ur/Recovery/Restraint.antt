-- ===== src/Ur/Recovery/Restraint.antt =====
-- The recovery of the Universal Robots node restarts the safety system, or unlocks a protective stop,
-- only in the safety modes that call for it.
use icon_hwm_controller.Prelude.{
  ℕ, ℤ, String, ◌+◌, ◌≡◌, ◌≢◌, inl, inr, refl, ◌∙◌, Bool, true, false, [], ◌∷◌, some, arith,
  if◌then◌else◌, value_or, Bool-cases, str_eq, ap, ◌⊎◌, ℕ_discrete,
}
use icon_hwm_controller.Status.{is_ok}
use icon_hwm_controller.Ur.Status.{SafetyMode, RobotMode}
use icon_hwm_controller.Ur.Node.{Node}
use icon_hwm_controller.Ur.Recovery.{
  Event, trigger_request, Trace, Services, Clients, make_clients, call_trigger_service,
  call_set_mode_action, try_trigger, connect_if_disconnected, handle_safety, is_restart_mode,
  prepare_recovery, clear_faults,
}
use icon_hwm_controller.Ur.Recovery.Plan.{NeedsRestart}
use icon_hwm_controller.Ur.Recovery.Publications.{set_mode_call, done_before, clear_faults_done}

abbrev asks : String → Event → Bool
asks name (trigger_request other) = str_eq other name
asks name _ = false

-- How often a trace asks for the service `name`.
abbrev pub requests : String → Trace → ℕ
requests name [] = 0
requests name (e ∷ t) = if asks name e then requests name t + 1 else requests name t

module _ (services : Services) (name : String) where
  requests-call_trigger_service :
      (other : String) (timeout : ℕ) (t : Trace)
      → str_eq other name ≡ false
      → requests name (call_trigger_service services (some other) timeout t).1 ≡ requests name t
  unfolding call_trigger_service
  requests-call_trigger_service other timeout t n = ground arith

  requests-call_set_mode_action :
      (client : Bool) (target : ℤ) (stop play : Bool) (t : Trace)
      → requests name (call_set_mode_action services client target stop play t).1 ≡ requests name t
  unfolding call_set_mode_action
  requests-call_set_mode_action client target stop play t = ground arith

  -- `name` is none of the common services.
  record Uncommon : Type 0 where
    connect : str_eq "dashboard_client/connect" name ≡ false
    close_safety_popup : str_eq "dashboard_client/close_safety_popup" name ≡ false
    close_popup : str_eq "dashboard_client/close_popup" name ≡ false
    brake_release : str_eq "dashboard_client/brake_release" name ≡ false
    resend : str_eq "io_and_status_controller/resend_robot_program" name ≡ false

  module _ (v : Uncommon) (sm : SafetyMode) (rm : RobotMode) (a b : ℕ) where
    abbrev clients : Clients
    clients = make_clients a b

    requests-connect :
        (m : ℤ) (t : Trace)
        → requests name (connect_if_disconnected services sm rm clients m t) ≡ requests name t
    unfolding connect_if_disconnected try_trigger make_clients
    requests-connect m t =
        ground (arith, requests-call_trigger_service "dashboard_client/connect" a t v.connect)

    -- Where the handling of the safety mode does not ask for it, neither does the recovery.
    module _ (before : Node)
        (safe : (t' : Trace)
          → requests name (
              handle_safety services sm rm clients
                (value_or before.robot_status.safety_mode sm.undefined_safety_mode)
                t')
            ≡ requests name t') where
      requests-prepare_recovery :
          (t : Trace)
          → requests name (prepare_recovery services sm rm clients before.robot_status t)
            ≡ requests name t
      unfolding prepare_recovery try_trigger make_clients
      requests-prepare_recovery t =
          requests-call_trigger_service "dashboard_client/close_popup" a _ v.close_popup
          ∙ requests-call_trigger_service "dashboard_client/close_safety_popup" a _
              v.close_safety_popup
          ∙ safe _
          ∙ requests-connect (value_or before.robot_status.robot_mode rm.disconnected) t

      requests-done_before :
          (t : Trace)
          → requests name (done_before services sm rm clients before t) ≡ requests name t
      unfolding done_before make_clients
      requests-done_before t =
          let first =
            requests-call_set_mode_action true rm.running true true
              (prepare_recovery services sm rm clients before.robot_status t)
            ∙ requests-prepare_recovery t in
          let second =
            requests-call_trigger_service "io_and_status_controller/resend_robot_program" a _
              v.resend
            ∙ requests-call_trigger_service "dashboard_client/brake_release" a _ v.brake_release
            ∙ first in
          elim (Bool-cases (is_ok (set_mode_call services sm rm clients before t).0)) [
            | inl fine ↦ rw fine first
            | inr failed ↦ rw failed second
          ]

      requests-clear_faults :
          (after : Node) (t : Trace)
          → requests name (clear_faults services sm rm clients before after t).1 ≡ requests name t
      requests-clear_faults after t =
          ap (requests name) (clear_faults_done services sm rm clients before after t)
          ∙ requests-done_before t

module _ (services : Services) (sm : SafetyMode) (rm : RobotMode) (a b : ℕ) where
  restart-Uncommon : Uncommon services "dashboard_client/restart_safety"
  restart-Uncommon = record {
    connect = refl;
    close_safety_popup = refl;
    close_popup = refl;
    brake_release = refl;
    resend = refl;
  }

  unlock-Uncommon : Uncommon services "dashboard_client/unlock_protective_stop"
  unlock-Uncommon = record {
    connect = refl;
    close_safety_popup = refl;
    close_popup = refl;
    brake_release = refl;
    resend = refl;
  }

  no_restart :
      (m : ℕ) (t : Trace)
      → is_restart_mode services sm rm (make_clients a b) m ≡ false
      → requests "dashboard_client/restart_safety"
          (handle_safety services sm rm (make_clients a b) m t)
        ≡ requests "dashboard_client/restart_safety" t
  unfolding handle_safety try_trigger make_clients
  no_restart m t n = ground (
    arith,
    requests-call_trigger_service services "dashboard_client/restart_safety"
        "dashboard_client/unlock_protective_stop" a t refl,
  )

  no_unlock :
      (m : ℕ) (t : Trace)
      → m ≢ sm.protective_stop
      → requests "dashboard_client/unlock_protective_stop"
          (handle_safety services sm rm (make_clients a b) m t)
        ≡ requests "dashboard_client/unlock_protective_stop" t
  unfolding handle_safety try_trigger make_clients
  no_unlock m t n = ground (
    arith,
    requests-call_trigger_service services "dashboard_client/unlock_protective_stop"
        "dashboard_client/close_safety_popup" a t refl,
    requests-call_trigger_service services "dashboard_client/unlock_protective_stop"
        "dashboard_client/restart_safety" a
        (call_trigger_service services (some "dashboard_client/close_safety_popup") a t).1 refl,
  )

  -- Only such a mode is a restart mode of the code.
  pub needs_restart :
      (m : ℕ) → is_restart_mode services sm rm (make_clients a b) m ≡ true → NeedsRestart sm m
  unfolding is_restart_mode
  needs_restart m e = ground arith

  -- A recovery of a robot whose safety mode is none of the violation, the fault, the safeguard stops and
  -- the emergency stops never asks for a restart of the safety system, and one of a robot that is not
  -- in a protective stop never asks to unlock it, whatever the services answer.
  pub restraint :
      (before after : Node) (t : Trace)
      → let m = value_or before.robot_status.safety_mode sm.undefined_safety_mode in
        let sent = (clear_faults services sm rm (make_clients a b) before after t).1 in
        (NeedsRestart sm m
          ⊎ (requests "dashboard_client/restart_safety" sent
              ≡ requests "dashboard_client/restart_safety" t))
        × ((m ≡ sm.protective_stop)
            ⊎ (requests "dashboard_client/unlock_protective_stop" sent
                ≡ requests "dashboard_client/unlock_protective_stop" t))
  restraint before after t =
      let m = value_or before.robot_status.safety_mode sm.undefined_safety_mode in
      (
        elim (Bool-cases (is_restart_mode services sm rm (make_clients a b) m)) [
          | inl restarts ↦ inl (needs_restart m restarts)
          | inr n ↦ inr (
              requests-clear_faults services "dashboard_client/restart_safety" restart-Uncommon sm
                rm a b before (λ t'. no_restart m t' n) after t)
        ],
        elim (ℕ_discrete m sm.protective_stop) [
          | yes stop ↦ inl stop
          | no n ↦ inr (
              requests-clear_faults services "dashboard_client/unlock_protective_stop"
                unlock-Uncommon sm rm a b before (λ t'. no_unlock m t' n) after t)
        ],
      )
