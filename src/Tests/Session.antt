-- ===== src/Tests/Session.antt =====
-- A session with a module at fault.
use icon_hwm_controller.Prelude.{get_elem?, set, ◌≢◌, arith, ◌≡◌, refl, false, List, [], ◌∷◌, none}
use icon_hwm_controller.Status.{undefined, Status, ok_status, value}
use icon_hwm_controller.OperationalStatus.{OperationalStatus, faulted}
use icon_hwm_controller.Hwm.Params.{on_operational_status}
use icon_hwm_controller.Hwm.Services.{call_set_hw_state, call_switch_controller}
use icon_hwm_controller.Hwm.Transitions.{clear_faults, enable_motion}
use icon_hwm_controller.Hwm.Apply.{apply_command}
use icon_hwm_controller.Hwm.Strides.{slot}
use icon_hwm_controller.Controller.Params.{hwm_params}
use icon_hwm_controller.Cycle.{System as Module, lock, store, unlock}
use icon_hwm_controller.Session.{
  State, clear_faults_call, enable_motion_call, apply_command_call, answer, Event, answered, heard,
  hidden, checked, read_status_call, calls, hears, locks, Run, here, next,
}
use icon_hwm_controller.Session.Configured.{begun as begins, configured_session}
use icon_hwm_controller.Cycle.Configured.{initial}
use icon_hwm_controller.Tests.Plugin.{
  host, working, unconfigured, configured, working_run, arm, arm_run, interfaces, full,
  full-BuildsFull, advertised, claimed, claimed_states, readings,
}
use icon_hwm_controller.Session.Refused.{AllRefused, faulted_session}
use icon_hwm_controller.Tests.Motion.{loans, with_state, targets, parked, joints, zeros}
use icon_hwm_controller.Tests.Requests.{healthy}

abbrev module_at_fault : Module loans
module_at_fault = record {
  hwm = with_state faulted;
  held = false;
  interfaces = parked;
  joints = joints zeros zeros none;
}

abbrev begun : State loans
begun = record { module_state = module_at_fault; trace = [] }

-- The vendor's service and the controllers accept.
abbrev cleared : State loans
cleared = record begun { trace = (clear_faults healthy (with_state faulted) []).1 }

abbrev still : OperationalStatus
still = record { state = faulted; message = "still" }

abbrev motion : Status
motion = enable_motion (with_state faulted)

abbrev told : State loans
told = record cleared {
  module_state = record module_at_fault { hwm = on_operational_status (with_state faulted) still };
}

abbrev events : List (Event loans healthy)
events =
    answered clear_faults_call false ok_status
    ∷ answered enable_motion_call false motion
    ∷ hidden
    ∷ heard still
    ∷ hidden
    ∷ []

session_run : Run loans healthy begun events told
unfolding answer clear_faults call_set_hw_state call_switch_controller
session_run = next (calls clear_faults_call tt refl) (
    next (calls enable_motion_call refl refl) (
      next (locks (lock refl))
        (next (hears still (store still refl)) (next (locks (unlock refl)) here))))

faulted_session_example :
    AllRefused loans healthy events
    × (told.module_state.interfaces ≡ parked)
    × (told.module_state.hwm.latest_operational_status.state ≡ faulted)
faulted_session_example =
    faulted_session loans healthy session_run (tt, (tt, (tt, (refl, (tt, tt))))) refl

-- The session of a configured plugin: it enables motion, and a command that is written.
abbrev first : State loans
first = begins working host loans healthy full arm interfaces []

abbrev moved : State loans
moved = record first {
  module_state = record (initial loans full arm interfaces) { interfaces = 1 ∷ 3 ∷ 2 ∷ 4 ∷ [] };
}

abbrev moving : List (Event loans healthy)
moving =
    answered enable_motion_call false ok_status
    ∷ answered (apply_command_call (value targets)) false ok_status
    ∷ []

moving_run : Run loans healthy first moving moved
unfolding answer checked enable_motion apply_command get_elem? set hwm_params slot
moving_run =
    next (calls enable_motion_call refl refl)
      (next (calls (apply_command_call (value targets)) tt refl) here)

configured_session_example : answer loans healthy (read_status_call readings 9) moved ≢ undefined
configured_session_example =
    configured_session working host loans healthy full (unconfigured working) configured arm
      interfaces [] (read_status_call readings 9) working_run arm_run full-BuildsFull advertised
      claimed (omega arith) (omega (arith, claimed_states)) moving_run (tt, (tt, tt)) claimed_states
