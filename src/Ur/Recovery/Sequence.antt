-- ===== src/Ur/Recovery/Sequence.antt =====
-- The whole recovery of the Universal Robots node when every service is there and the action succeeds.
use mathlib.Core.List.{append_assoc}
use icon_hwm_controller.Prelude.{
  ℕ, ℤ, String, ◌≡◌, ◌⊎◌, refl, sym, ap, ◌∙◌, inl, inr, true, ◌||◌, ◌∷◌, ◌++◌, Option, none, some,
  if◌then◌else◌, value_or, arith, Bool-cases, ◌==◌, eqb_ℤ,
}
use icon_hwm_controller.Status.{ok_status}
use icon_hwm_controller.Ur.Status.{RobotStatus, SafetyMode, RobotMode}
use icon_hwm_controller.Ur.Node.{Node}
use icon_hwm_controller.Ur.Recovery.Plan.{
  Mode, protective_stop, safeguard_stop, system_emergency_stop, robot_emergency_stop, violation,
  fault, automatic_mode_safeguard_stop, Handling, leave, unlock, restart, handling, code_of,
  HasDistinctCodes, NeedsRestart, Reads, safety_plan, connect_plan, recovery_plan,
}
use icon_hwm_controller.Ur.Recovery.Restraint.{needs_restart}
use icon_hwm_controller.Ur.Recovery.{
  trigger_request, set_mode_goal, get_result_request, published, Trace, TriggerResponse, Services,
  make_clients, call_trigger_service, call_set_mode_action, try_trigger, connect_if_disconnected,
  handle_safety, is_restart_mode, prepare_recovery, clear_faults,
}

Handling-cases : (h : Handling) → (h ≡ leave) ⊎ (h ≡ unlock) ⊎ (h ≡ restart)
Handling-cases leave = inl refl
Handling-cases unlock = inr (inl refl)
Handling-cases restart = inr (inr refl)

-- The services and the action server are there, whatever they answer to a trigger; the action's goal is
-- accepted, and it succeeds.
pub record IsRecoverable (services : Services) : Type 0 where
  pub ready : (t : Trace) (name : String) → services.service_is_ready t name ≡ true
  pub server : (t : Trace) → services.action_server_is_ready t ≡ true
  pub accepted : (t : Trace) → services.goal_accepted t ≡ some true
  pub result :
      (t : Trace)
      → (r : TriggerResponse) × (services.action_result t
          ≡ some (record { succeeded = true; result = some r }))
        × (r.success ≡ true)

-- The table has a restart for each code that needs one.
restart_of_need :
    (sm : SafetyMode) (m : ℕ)
    → NeedsRestart sm m
    → (mode : Mode) × (m ≡ code_of sm mode) × (handling (some mode) ≡ restart)
restart_of_need sm m (inl e) = (violation, e, refl)
restart_of_need sm m (inr (inl e)) = (fault, e, refl)
restart_of_need sm m (inr (inr (inl e))) = (safeguard_stop, e, refl)
restart_of_need sm m (inr (inr (inr (inl e)))) = (automatic_mode_safeguard_stop, e, refl)
restart_of_need sm m (inr (inr (inr (inr (inl e))))) = (system_emergency_stop, e, refl)
restart_of_need sm m (inr (inr (inr (inr (inr e))))) = (robot_emergency_stop, e, refl)

module _ (services : Services) (sm : SafetyMode) (rm : RobotMode) (a b : ℕ) where
  -- Each mode that the table restarts is a restart mode of the code.
  test_of_restart :
      (mode : Mode)
      → handling (some mode) ≡ restart
      → is_restart_mode services sm rm (make_clients a b) (code_of sm mode) ≡ true
  unfolding is_restart_mode
  test_of_restart violation e = ground arith
  test_of_restart fault e = ground arith
  test_of_restart safeguard_stop e = ground arith
  test_of_restart automatic_mode_safeguard_stop e = ground arith
  test_of_restart system_emergency_stop e = ground arith
  test_of_restart robot_emergency_stop e = ground arith
  test_of_restart _ e = cc

  -- Where the table says so, the tests of the code hold.
  Reads-unlock :
      (m : ℕ) (mode : Option Mode)
      → Reads sm m mode
      → handling mode ≡ unlock
      → m ≡ sm.protective_stop
  Reads-unlock m (some protective_stop) v e = v
  Reads-unlock m _ v e = cc

  Reads-restart :
      (m : ℕ) (mode : Option Mode)
      → Reads sm m mode
      → handling mode ≡ restart
      → is_restart_mode services sm rm (make_clients a b) m ≡ true
  Reads-restart m none v e = cc
  Reads-restart m (some mode) v e = rw v (test_of_restart mode e)

  module _ (distinct : HasDistinctCodes sm) where
    -- The tests of the code tell the modes apart.
    Reads-same :
        (m : ℕ) (mode : Option Mode) (other : Mode)
        → Reads sm m mode
        → m ≡ code_of sm other
        → mode ≡ some other
    Reads-same m none other v e = absurd (v other e)
    Reads-same m (some mode) other v e = ap some (distinct mode other (sym v ∙ e))

    handling_of_tests :
        (m : ℕ) (mode : Option Mode)
        → Reads sm m mode
        → handling mode ≡ (
            if m == sm.protective_stop
            then unlock
            else if is_restart_mode services sm rm (make_clients a b) m
            then restart
            else leave)
    handling_of_tests m mode v = elim (Bool-cases (m == sm.protective_stop)) [
      | inl stop ↦ rw stop (ap handling (Reads-same m mode protective_stop v (ground arith)))
      | inr other ↦
          rw other (elim (Bool-cases (is_restart_mode services sm rm (make_clients a b) m)) [
            | inl restarts ↦
                let (r, at, calls) =
                  restart_of_need sm m (needs_restart services sm rm a b m restarts) in
                rw restarts (ap handling (Reads-same m mode r v at) ∙ calls)
            | inr none_of_them ↦ rw none_of_them (elim (Handling-cases (handling mode)) [
              | inl calm ↦ calm
              | inr (inl unlocks) ↦ absurd (ground (arith, Reads-unlock m mode v unlocks))
              | inr (inr restarts) ↦ absurd (ground (arith, Reads-restart m mode v restarts))
            ])
          ])
    ]

  module _ (distinct : HasDistinctCodes sm) (v : IsRecoverable services) where
    call_trigger_service-sends :
        (name : String) (timeout : ℕ) (t : Trace)
        → (call_trigger_service services (some name) timeout t).1 ≡ trigger_request name ∷ t
    unfolding call_trigger_service
    call_trigger_service-sends name timeout t = rw (v.ready t name)

    connect-sends :
        (robot : ℤ) (t : Trace)
        → connect_if_disconnected services sm rm (make_clients a b) robot t
          ≡ connect_plan rm robot ++ t
    unfolding connect_if_disconnected try_trigger make_clients
    connect-sends robot t =
        elim (Bool-cases (eqb_ℤ robot rm.disconnected || eqb_ℤ robot rm.no_controller)) [
          | inl lost ↦ rw lost (call_trigger_service-sends "dashboard_client/connect" a t)
          | inr there ↦ rw there
        ]

    handle_safety-sends :
        (m : ℕ) (mode : Option Mode) (t : Trace)
        → Reads sm m mode
        → handle_safety services sm rm (make_clients a b) m t ≡ safety_plan (handling mode) ++ t
    unfolding handle_safety try_trigger make_clients
    handle_safety-sends m mode t reads =
        rw (handling_of_tests distinct m mode reads) (elim (Bool-cases (m == sm.protective_stop)) [
          | inl stop ↦
              rw stop (call_trigger_service-sends "dashboard_client/unlock_protective_stop" a t)
          | inr other ↦
              rw other (elim (Bool-cases (is_restart_mode services sm rm (make_clients a b) m)) [
                | inl restarts ↦ rw restarts (
                    rw (call_trigger_service-sends "dashboard_client/close_safety_popup" a t)
                      (rw (call_trigger_service-sends "dashboard_client/restart_safety" a _)))
                | inr calm ↦ rw calm
              ])
        ])

    prepare_recovery-sends :
        (r : RobotStatus) (mode : Option Mode) (t : Trace)
        → Reads sm (value_or r.safety_mode sm.undefined_safety_mode) mode
        → prepare_recovery services sm rm (make_clients a b) r t
          ≡ trigger_request "dashboard_client/close_popup"
            ∷ trigger_request "dashboard_client/close_safety_popup"
            ∷ ((safety_plan (handling mode)
                  ++ connect_plan rm (value_or r.robot_mode rm.disconnected))
                ++ t)
    unfolding prepare_recovery try_trigger make_clients
    prepare_recovery-sends r mode t reads =
        let robot = value_or r.robot_mode rm.disconnected in
        let safety = value_or r.safety_mode sm.undefined_safety_mode in
        let inner =
          ap (handle_safety services sm rm (make_clients a b) safety) (connect-sends robot t)
          ∙ handle_safety-sends safety mode (connect_plan rm robot ++ t) reads
          ∙ sym (append_assoc (safety_plan (handling mode)) (connect_plan rm robot) t) in
        call_trigger_service-sends "dashboard_client/close_popup" a _
        ∙ ap (λ (u : Trace). trigger_request "dashboard_client/close_popup" ∷ u)
            (call_trigger_service-sends "dashboard_client/close_safety_popup" a _
              ∙ ap (λ (u : Trace). trigger_request "dashboard_client/close_safety_popup" ∷ u) inner)

    set_mode-succeeds :
        (t : Trace)
        → call_set_mode_action services true rm.running true true t
          ≡ (ok_status, get_result_request ∷ set_mode_goal rm.running true true ∷ t)
    unfolding call_set_mode_action
    set_mode-succeeds t =
        let goal = set_mode_goal rm.running true true ∷ t in
        let (r, result, success) = v.result (get_result_request ∷ goal) in
        rw (v.server t, v.accepted goal, result, success)

    -- When every service and the action server are there and the action succeeds, `ClearFaults` succeeds,
    -- whatever the services answer to a trigger. Where the codes of the safety modes differ, it then has
    -- sent, the oldest first: `connect` if the robot was not connected; `unlock_protective_stop` after a
    -- protective stop; `close_safety_popup` and `restart_safety` with a pause of 500 ms after a
    -- violation, a fault, a safeguard stop, of the automatic mode too, and an emergency stop of the
    -- system or the robot; neither in the other modes, the three-position enabling stop among them;
    -- `close_safety_popup` and `close_popup`; the goal `RUNNING` of the action and the request for its
    -- result. At the end it publishes the status as it then is.
    pub recovery_sequence :
        (before after : Node) (mode : Option Mode) (t : Trace)
        → Reads sm (value_or before.robot_status.safety_mode sm.undefined_safety_mode) mode
        → clear_faults services sm rm (make_clients a b) before after t ≡ (
          ok_status,
          published after.operational_status ∷ (recovery_plan rm mode before.robot_status ++ t),
        )
    unfolding clear_faults make_clients
    recovery_sequence before after mode t reads =
        rw (prepare_recovery-sends before.robot_status mode t reads) (rw (set_mode-succeeds _))
