-- ===== src/Session/Refused.antt =====
-- A fault is refused throughout a session: no call of the runtime gets around it.
use icon_hwm_controller.Prelude.{◌≡◌, refl, ap, ◌∙◌, inr, Bool, false, List, [], ◌∷◌, arith}
use icon_hwm_controller.Status.{Status, StatusCode, done}
use icon_hwm_controller.OperationalStatus.{faulted}
use icon_hwm_controller.Hwm.Params.{Hwm, on_operational_status}
use icon_hwm_controller.Hwm.Interfaces.{Loans}
use icon_hwm_controller.Hwm.Services.{Services}
use icon_hwm_controller.Hwm.Transitions.{enable_motion, disable_motion}
use icon_hwm_controller.Hwm.Apply.Guards.{apply_command_blocked}
use icon_hwm_controller.Cycle.{lock, store, unlock, read}
use icon_hwm_controller.Session.{
  State, Call, init_call, prepare_call, activate_call, deactivate_call, enable_motion_call,
  disable_motion_call, clear_faults_call, shutdown_call, read_status_call, apply_command_call,
  answer, Event, answered, heard, Step, calls, hears, locks, Run, here, next,
}

module _ (loans : Loans) (services : Services) where
  -- No other status than a fault comes in, and no command falls into the time in which another thread
  -- has the lock of the status.
  abbrev pub StaysFaulted : Event loans services → Type 0
  StaysFaulted (answered (apply_command_call command) held r) = held ≡ false
  StaysFaulted (heard msg) = msg.state ≡ faulted
  StaysFaulted _ = Unit

  abbrev pub AllStayFaulted : List (Event loans services) → Type 0
  AllStayFaulted [] = Unit
  AllStayFaulted (e ∷ es) = StaysFaulted e × AllStayFaulted es

  -- Commands and the two motion requests are refused.
  abbrev pub IsRefused : Event loans services → Type 0
  IsRefused (answered enable_motion_call held r) = r.code ≡ StatusCode.failed_precondition
  IsRefused (answered disable_motion_call held r) = r.code ≡ StatusCode.failed_precondition
  IsRefused (answered (apply_command_call command) held r) = r.code ≡ StatusCode.failed_precondition
  IsRefused _ = Unit

  abbrev pub AllRefused : List (Event loans services) → Type 0
  AllRefused [] = Unit
  AllRefused (e ∷ es) = IsRefused e × AllRefused es

  -- The module keeps its command interfaces and its object.
  abbrev Keeps : State loans → State loans → Type 0
  Keeps s t =
      (t.module_state.interfaces ≡ s.module_state.interfaces)
      × (t.module_state.hwm ≡ s.module_state.hwm)

  abbrev IsFaulted : State loans → Type 0
  IsFaulted s = s.module_state.hwm.latest_operational_status.state ≡ faulted

  answer-Keeps :
      (x : Call loans) (s : State loans) {s' : State loans} {r : Status} (held : Bool)
      → held ≡ s.module_state.held
      → answer loans services x s ≡ done (r, s')
      → StaysFaulted (answered x held r)
      → IsFaulted s
      → IsRefused (answered x held r) × Keeps s s'
  unfolding answer enable_motion disable_motion
  answer-Keeps (init_call _) s held at e c f = (tt, ground (arith, e))
  answer-Keeps prepare_call s held at e c f = (tt, ground (arith, e))
  answer-Keeps activate_call s held at e c f = (tt, ground (arith, e))
  answer-Keeps deactivate_call s held at e c f = (tt, ground (arith, e))
  answer-Keeps enable_motion_call s held at e c f = ground (arith, e, f)
  answer-Keeps disable_motion_call s held at e c f = ground (arith, e, f)
  answer-Keeps clear_faults_call s held at e c f = (tt, ground (arith, e))
  answer-Keeps shutdown_call s held at e c f = (tt, ground (arith, e))
  answer-Keeps (read_status_call _ _) s held at e c f = (tt, ground (arith, e))
  answer-Keeps (apply_command_call command) s held at e c f =
      let (s0, run, code) =
        apply_command_blocked loans s.module_state.hwm command s.module_state.interfaces (inr f) in
      ground (arith, e, run, code, at, c)

  Step-Keeps :
      {s t : State loans} {e : Event loans services}
      → Step loans services s e t
      → StaysFaulted e
      → IsFaulted s
      → IsRefused e × (t.module_state.interfaces ≡ s.module_state.interfaces) × IsFaulted t
  unfolding on_operational_status
  Step-Keeps {s} (calls x w e) c f =
      let (refused, (same, kept)) = answer-Keeps x s s.module_state.held refl e c f in
      (refused, same, ap (λ (h : Hwm). h.latest_operational_status.state) kept ∙ f)
  Step-Keeps (hears _ (store _ mine)) c f = (tt, refl, c)
  Step-Keeps (locks (lock free)) c f = (tt, refl, f)
  Step-Keeps (locks (unlock mine)) c f = (tt, refl, f)
  Step-Keeps (locks (read states now e)) c f = (tt, refl, f)

  -- From a state whose latest status is faulted, in a session of any calls of the runtime, in which no
  -- other status than a fault comes in and no command falls into the time in which another thread has
  -- the lock of the status: every command and every request to enable or disable motion is refused as a
  -- failed precondition, also after `ClearFaults` has succeeded, no command interface changes, and the
  -- latest status stays faulted.
  pub faulted_session :
      {s t : State loans} {es : List (Event loans services)}
      → Run loans services s es t
      → AllStayFaulted es
      → s.module_state.hwm.latest_operational_status.state ≡ faulted
      → AllRefused es
        × (t.module_state.interfaces ≡ s.module_state.interfaces)
        × (t.module_state.hwm.latest_operational_status.state ≡ faulted)
  faulted_session here c f = (tt, refl, f)
  faulted_session (next st r) (c, cs) f =
      let (refused, same, f') = Step-Keeps st c f in
      let (rest, same', f'') = faulted_session r cs f' in ((refused, rest), same' ∙ same, f'')
