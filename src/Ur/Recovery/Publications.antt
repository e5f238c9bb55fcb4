-- ===== src/Ur/Recovery/Publications.antt =====
-- The one status that the recovery of the Universal Robots node publishes.
use icon_hwm_controller.Prelude.{
  ℕ, ℤ, String, ◌+◌, ◌≡◌, inl, inr, refl, ap, ◌∙◌, Bool, true, List, [], ◌∷◌, Option, none, some,
  arith, if◌then◌else◌, value_or, Bool-cases,
}
use icon_hwm_controller.Status.{Status, is_ok}
use icon_hwm_controller.OperationalStatus.{OperationalStatus}
use icon_hwm_controller.Ur.Status.{RobotStatus, SafetyMode, RobotMode, to_operational_status}
use icon_hwm_controller.Ur.Node.{Node, start, Callback, run}
use icon_hwm_controller.Ur.Node.History.{latest, run_status}
use icon_hwm_controller.Ur.Recovery.{
  published, Trace, Services, Clients, call_trigger_service, call_set_mode_action, try_trigger,
  connect_if_disconnected, handle_safety, prepare_recovery, clear_faults,
}

-- How many statuses a trace has published.
abbrev pub publications : Trace → ℕ
publications [] = 0
publications (published s ∷ t) = publications t + 1
publications (_ ∷ t) = publications t

module _ (services : Services) where
  publications-call_trigger_service :
      (client : Option String) (timeout : ℕ) (t : Trace)
      → publications (call_trigger_service services client timeout t).1 ≡ publications t
  unfolding call_trigger_service
  publications-call_trigger_service none timeout t = refl
  publications-call_trigger_service (some name) timeout t = ground arith

  publications-call_set_mode_action :
      (client : Bool) (target : ℤ) (stop play : Bool) (t : Trace)
      → publications (call_set_mode_action services client target stop play t).1 ≡ publications t
  unfolding call_set_mode_action
  publications-call_set_mode_action client target stop play t = ground arith

  module _ (sm : SafetyMode) (rm : RobotMode) (clients : Clients) where
    abbrev pub set_mode_call : Node → Trace → Status × Trace
    set_mode_call before t =
        call_set_mode_action services clients.set_mode_action_client rm.running true true
          (prepare_recovery services sm rm clients before.robot_status t)

    -- The call that sends the program again, after the brakes are released.
    abbrev resend_call : Node → Trace → Status × Trace
    resend_call before t =
        call_trigger_service services clients.resend_robot_program clients.service_timeout
          (call_trigger_service services clients.brake_release clients.service_timeout
            (set_mode_call before t).1).1

    publications-try_trigger :
        (client : Option String) (t : Trace)
        → publications (try_trigger services sm rm clients client t) ≡ publications t
    unfolding try_trigger
    publications-try_trigger client t =
        publications-call_trigger_service client clients.service_timeout t

    connect_publications :
        (m : ℤ) (t : Trace)
        → publications (connect_if_disconnected services sm rm clients m t) ≡ publications t
    unfolding connect_if_disconnected
    connect_publications m t = ground (arith, publications-try_trigger clients.connect t)

    publications-handle_safety :
        (m : ℕ) (t : Trace)
        → publications (handle_safety services sm rm clients m t) ≡ publications t
    unfolding handle_safety
    publications-handle_safety m t = ground (
      arith,
      publications-try_trigger clients.unlock_protective_stop t,
      publications-try_trigger clients.close_safety_popup t,
      publications-try_trigger clients.restart_safety
          (try_trigger services sm rm clients clients.close_safety_popup t),
    )

    publications-prepare_recovery :
        (r : RobotStatus) (t : Trace)
        → publications (prepare_recovery services sm rm clients r t) ≡ publications t
    unfolding prepare_recovery
    publications-prepare_recovery r t =
        publications-call_trigger_service clients.close_popup clients.service_timeout _
        ∙ publications-call_trigger_service clients.close_safety_popup clients.service_timeout _
        ∙ publications-handle_safety (value_or r.safety_mode sm.undefined_safety_mode) _
        ∙ connect_publications (value_or r.robot_mode rm.disconnected) t

    -- What the recovery has done before it publishes.
    unfoldable pub done_before : Node → Trace → Trace
    done_before before t =
        if is_ok (set_mode_call before t).0
        then (set_mode_call before t).1
        else (resend_call before t).1

    publications-done_before :
        (before : Node) (t : Trace) → publications (done_before before t) ≡ publications t
    unfolding done_before
    publications-done_before before t =
        let first =
          publications-call_set_mode_action clients.set_mode_action_client rm.running true true
            (prepare_recovery services sm rm clients before.robot_status t)
          ∙ publications-prepare_recovery before.robot_status t in
        let second =
          publications-call_trigger_service clients.resend_robot_program clients.service_timeout _
          ∙ publications-call_trigger_service clients.brake_release clients.service_timeout _
          ∙ first in
        elim (Bool-cases (is_ok (set_mode_call before t).0)) [
          | inl fine ↦ rw fine first
          | inr failed ↦ rw failed second
        ]

    -- It publishes one status, at its end.
    pub clear_faults_done :
        (before after : Node) (t : Trace)
        → (clear_faults services sm rm clients before after t).1
          ≡ published after.operational_status ∷ done_before before t
    unfolding clear_faults done_before
    clear_faults_done before after t = ground arith

    -- When the callbacks `cs` have run by its end, the recovery ends with the publication of one status,
    -- the only one it publishes: the evaluation of the latest message of each topic in `cs`.
    pub clear_faults_publishes :
        (before : Node) (cs : List Callback) (t : Trace)
        → (rest : Trace) × ((clear_faults services sm rm clients before (run sm rm start cs).0 t).1
            ≡ published (to_operational_status sm rm (latest start.robot_status cs)) ∷ rest)
          × (publications rest ≡ publications t)
    clear_faults_publishes before cs t = (
      done_before before t,
      clear_faults_done before (run sm rm start cs).0 t
          ∙ ap (λ (s : OperationalStatus). published s ∷ done_before before t)
              (run_status sm rm cs).1,
      publications-done_before before t,
    )
