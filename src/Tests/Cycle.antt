-- ===== src/Tests/Cycle.antt =====
-- Cycles of a module with two joints, messages between them, and a command that comes back.
use icon_hwm_controller.Prelude.{
  length, ℕ, ◌≡◌, ◌≢◌, inl, inr, refl, true, false, List, [], ◌∷◌, none, some, arith,
}
use icon_hwm_controller.Status.{value}
use icon_hwm_controller.OperationalStatus.{OperationalStatus, disabled, faulted, enabled}
use icon_hwm_controller.Hwm.Params.{on_operational_status}
use icon_hwm_controller.Hwm.Interfaces.{Loans}
use icon_hwm_controller.Hwm.Read.Copies.{IsReady}
use icon_hwm_controller.Hwm.Apply.Guards.{Forbids, apply_command_blocked}
use icon_hwm_controller.Cycle.{
  System, Label, stored, commanded, internal, lock, store, unlock, apply, Run, here, next,
}
use icon_hwm_controller.Cycle.Halted.{halted_until_released}
use icon_hwm_controller.Cycle.Bounds.{IsSound}
use icon_hwm_controller.Cycle.Released.{Moves, released-Moves}
use icon_hwm_controller.Loopback.Total.{IsFaithful, Returns, command_comes_back}
use icon_hwm_controller.Hwm.Apply.Bounds.{IsArmed}
use icon_hwm_controller.Tests.Motion.{loans, with_state, targets, parked, joints, zeros}

abbrev idle : ℕ → List ℕ → System loans
idle s is = record {
  hwm = with_state s;
  held = false;
  interfaces = is;
  joints = joints zeros zeros none;
}

abbrev not_now : OperationalStatus
not_now = record { state = disabled; message = "now" }

abbrev labels : List Label
labels = commanded false ∷ internal ∷ stored not_now ∷ internal ∷ []

-- A refused command, and a message that disables the robot after the fault.
halted-Run : Run loans (idle faulted parked) labels (idle disabled parked)
unfolding on_operational_status
halted-Run =
    let (s, e, _) =
      apply_command_blocked loans (with_state faulted) (value targets) parked (inr refl) in
    next (apply (value targets) e)
      (next (lock refl) (next (store not_now refl) (next (unlock refl) here)))

halted_until_released_example :
    Forbids (with_state disabled).latest_operational_status × (Path (List ℕ) parked parked)
halted_until_released_example =
    halted_until_released loans halted-Run (refl, (tt, (inl refl, (tt, tt)))) (inr refl)

-- Hardware that does at once what it is told, and shows it.
abbrev pub direct : Loans
direct = record {
  Double = ℕ;
  StateInterface = ℕ;
  get_optional = λ s. some s;
  CommandInterface = ℕ;
  set_value = λ c v. (v, true);
}

direct-IsFaithful : IsFaithful direct (λ c. c)
direct-IsFaithful = record {
  mirrors = λ c v e. refl;
  accepts = λ c v. refl;
  answers = λ s. (s, refl);
}

direct-IsArmed : IsArmed direct (with_state enabled) parked
direct-IsArmed = record {
  connected = refl;
  strided = omega arith;
  velocity_strided = λ _. omega arith;
  loaned = omega arith;
  counted = omega arith;
}

direct-IsReady :
    (states : List ℕ)
    → length states ≡ length parked
    → IsReady direct (with_state enabled) states (joints zeros zeros none)
direct-IsReady states len = record {
  connected = refl;
  strided = omega arith;
  velocity_strided = λ _. omega arith;
  loaned = omega (arith, len);
  counted = omega (arith, len);
  position_room = refl;
  velocity_room = refl;
}

pub enabled-ne : ¬ Forbids (with_state enabled).latest_operational_status
enabled-ne (inl e) = ground (arith, e)
enabled-ne (inr e) = ground (arith, e)

pub parked-ne : parked ≢ []
parked-ne e = ground (arith, e)

command_comes_back_example :
    Returns direct (λ c. c) (with_state enabled) true targets parked 9 (joints zeros zeros none)
command_comes_back_example =
    command_comes_back direct (λ c. c) (with_state enabled) true targets parked 9
      (joints zeros zeros none) direct-IsFaithful refl direct-IsArmed direct-IsReady enabled-ne
      (record { positions = refl; velocities = refl; connected = refl }) parked-ne

abbrev pub faulted_direct : System direct
faulted_direct = record {
  hwm = with_state faulted;
  held = false;
  interfaces = parked;
  joints = joints zeros zeros none;
}

pub faulted_direct-IsSound : IsSound direct 4 faulted_direct
faulted_direct-IsSound = record {
  armed = record {
    connected = refl;
    strided = omega arith;
    velocity_strided = λ _. omega arith;
    loaned = omega arith;
    counted = omega arith;
  };
  ready = λ states len. record {
    connected = refl;
    strided = omega arith;
    velocity_strided = λ _. omega arith;
    loaned = omega (arith, len);
    counted = omega (arith, len);
    position_room = refl;
    velocity_room = refl;
  };
}

abbrev go : OperationalStatus
go = record { state = enabled; message = "" }

go-ne : ¬ Forbids go
go-ne (inl e) = ground (arith, e)
go-ne (inr e) = ground (arith, e)

released-Moves_example : Moves direct faulted_direct go targets
released-Moves_example =
    released-Moves direct faulted_direct go targets faulted_direct-IsSound refl parked-ne
      (λ c v. refl) go-ne (record { positions = refl; velocities = refl; connected = refl })
