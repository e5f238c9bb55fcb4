-- ===== src/Session.antt =====
-- A session of the hardware module: the calls that ICON's runtime makes through
-- `HardwareModuleInterface`, in any order, with messages on the status topic in between.
pub mod Refused
pub mod Bounds
pub mod Configured
use icon_hwm_controller.Prelude.{ℕ, ◌≡◌, Bool, false, not, List, [], ◌∷◌}
use icon_hwm_controller.Status.{Status, Checked, undefined, done, Expected}
use icon_hwm_controller.OperationalStatus.{OperationalStatus}
use icon_hwm_controller.Hwm.Interfaces.{Loans, Registry, Joints, init}
use icon_hwm_controller.Hwm.Services.{Services, Trace}
use icon_hwm_controller.Hwm.Transitions.{
  prepare, activate, deactivate, enable_motion, disable_motion, clear_faults, shutdown,
}
use icon_hwm_controller.Hwm.Read.{read_status}
use icon_hwm_controller.Hwm.Apply.{Command, apply_command}
use icon_hwm_controller.Cycle.{System as Module, Label, stored, commanded, internal, Step as Cycles}

-- The module, and what it has sent to other processes, the newest first.
pub record State (loans : Loans) : Type 0 where
  pub module_state : Module loans
  pub trace : Trace

-- The functions of the interface, with what each finds when it is called: the registry of the context,
-- the state interfaces and the time, and the command.
pub data Call (loans : Loans) : Type 0 where
  init_call : Registry loans.Double → Call loans
  prepare_call activate_call deactivate_call : Call loans
  enable_motion_call disable_motion_call clear_faults_call shutdown_call : Call loans
  read_status_call : List loans.StateInterface → ℕ → Call loans
  apply_command_call : Expected (Command loans.Double) → Call loans

unfoldable pub checked : {A B : Type 0} → (A → B) → Checked A → Checked B
checked f undefined = undefined
checked f (done a) = done (f a)

module _ (loans : Loans) (services : Services) where
  open loans use {Double, CommandInterface}

  -- A transition answers with a status and what was sent.
  transition : State loans → Status × Trace → Checked (Status × State loans)
  transition s (r, t) = done (r, record s { trace = t })

  only_answers : State loans → Status → Checked (Status × State loans)
  only_answers s r = done (r, s)

  abbrev pub keep_joints : State loans → Status × Joints Double → Status × State loans
  keep_joints s (r, j) = (r, record s { module_state = record s.module_state { joints = j } })

  abbrev pub keep_interfaces : State loans → Status × List CommandInterface → Status × State loans
  keep_interfaces s (r, is) =
      (r, record s { module_state = record s.module_state { interfaces = is } })

  unfoldable pub answer : Call loans → State loans → Checked (Status × State loans)
  unfolding transition only_answers checked
  answer (init_call r) s = done (keep_joints s (init r s.module_state.hwm s.module_state.joints))
  answer prepare_call s = transition s (prepare services s.module_state.hwm s.trace)
  answer activate_call s = only_answers s (activate s.module_state.hwm)
  answer deactivate_call s = only_answers s (deactivate s.module_state.hwm)
  answer enable_motion_call s = only_answers s (enable_motion s.module_state.hwm)
  answer disable_motion_call s = only_answers s (disable_motion s.module_state.hwm)
  answer clear_faults_call s = transition s (clear_faults services s.module_state.hwm s.trace)
  answer shutdown_call s = transition s (shutdown services s.module_state.hwm s.trace)
  answer (read_status_call states now) s =
      checked (keep_joints s)
        (read_status loans s.module_state.hwm states now s.module_state.joints)
  answer (apply_command_call command) s = checked (keep_interfaces s) (
      apply_command loans s.module_state.hwm (not s.module_state.held) command
        s.module_state.interfaces)

  -- What a step shows: an answer, with whether the lock of the status was held, or a message.
  pub data Event : Type 0 where
    answered : Call loans → (held : Bool) → Status → Event
    heard : OperationalStatus → Event
    hidden : Event

  -- `EnableMotion` and `DisableMotion` wait for the lock.
  abbrev pub Waits : Call loans → Bool → Type 0
  Waits enable_motion_call held = held ≡ false
  Waits disable_motion_call held = held ≡ false
  Waits _ held = Unit

  -- The topic's callback takes the lock, stores and gives the lock back, as in a cycle's steps.
  pub data Step (s : State loans) : Event → State loans → Type 0 where
    calls :
        (x : Call loans) {r : Status} {s' : State loans}
        → Waits x s.module_state.held
        → answer x s ≡ done (r, s')
        → Step s (answered x s.module_state.held r) s'
    hears :
        (msg : OperationalStatus) {m : Module loans}
        → Cycles loans s.module_state (stored msg) m
        → Step s (heard msg) (record s { module_state = m })
    locks :
        {m : Module loans}
        → Cycles loans s.module_state internal m
        → Step s hidden (record s { module_state = m })

  -- Sessions, with their events, the oldest first.
  pub data Run : State loans → List Event → State loans → Type 0 where
    here : {s : State loans} → Run s [] s
    next :
        {s t u : State loans} {e : Event} {es : List Event}
        → Step s e t
        → Run t es u
        → Run s (e ∷ es) u
