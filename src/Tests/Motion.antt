-- ===== src/Tests/Motion.antt =====
-- A module with two joints: what it reads, what it writes, and when it refuses.
use icon_hwm_controller.Prelude.{
  ℕ, suc, ◌+◌, ◌*◌, ◌<◌, ◌≤◌, ◌≡◌, ◌≢◌, ◌⊎◌, refl, true, false, List, [], ◌∷◌, Option, none, some,
  if◌then◌else◌, ltb, arith, get_elem?, set,
}
use icon_hwm_controller.Status.{Status, ok_status, Expected, value, done}
use icon_hwm_controller.OperationalStatus.{faulted, enabled}
use icon_hwm_controller.Hwm.Params.{Params, Hwm, to_controller, on_operational_status}
use icon_hwm_controller.Hwm.Interfaces.{Loans, Joints, mutate}
use icon_hwm_controller.Hwm.Read.{read_loop, read_status, read_error}
use icon_hwm_controller.Hwm.Read.Loop.{Reads}
use icon_hwm_controller.Hwm.Strides.{slot}
use icon_hwm_controller.Hwm.Read.Copies.{IsReady, read_status_copies}
use icon_hwm_controller.Hwm.Apply.{Command, write_error, apply_command}
use icon_hwm_controller.Hwm.Apply.Loop.{Wrote}
use icon_hwm_controller.Hwm.Apply.Guards.{
  Forbids, Fits, apply_command_contended, apply_command_guarded,
}
use icon_hwm_controller.Hwm.Apply.Bounds.{IsArmed, apply_command-defined}
use icon_hwm_controller.Hwm.Apply.Writes.{apply_command_writes, apply_command_refused}

-- Numbers as values: a reading may be missing, and a command from 100 on is refused.
abbrev pub loans : Loans
loans = record {
  Double = ℕ;
  StateInterface = Option ℕ;
  get_optional = λ s. s;
  CommandInterface = ℕ;
  set_value = λ c v. if ltb v 100 then (v, true) else (c, false);
}

abbrev arm : Params
arm = record {
  hardware_component_name = "arm";
  num_dofs = 2;
  state_interfaces = to_controller;
  command_interfaces = to_controller;
  state_stride = 2;
  command_stride = 2;
  has_velocity_state = true;
  has_velocity_command = true;
  operational_status_topic = "status";
  clear_faults_service = "clear";
  controllers_to_activate = "icon" ∷ [];
  controllers_to_deactivate = "teach" ∷ [];
  clock = true;
}

abbrev pub with_state : ℕ → Hwm
with_state s = record {
  params = arm;
  latest_operational_status = record { state = s; message = "now" };
  operational_status_subscription = some "status";
  clear_faults_client = some "clear";
}

abbrev pub targets : Command ℕ
targets = record { position = 1 ∷ 2 ∷ []; velocity_feedforward = 3 ∷ 4 ∷ [] }

abbrev pub too_far : Command ℕ
too_far = record { position = 1 ∷ 200 ∷ []; velocity_feedforward = 3 ∷ 4 ∷ [] }

abbrev pub parked : List ℕ
parked = 10 ∷ 20 ∷ 30 ∷ 40 ∷ []

abbrev pub moved : List ℕ
moved = 1 ∷ 3 ∷ 2 ∷ 4 ∷ []

abbrev half_moved : List ℕ
half_moved = 1 ∷ 3 ∷ 30 ∷ 40 ∷ []

pub parked-IsArmed : IsArmed loans (with_state enabled) parked
parked-IsArmed = record {
  connected = refl;
  strided = omega arith;
  velocity_strided = λ _. omega arith;
  loaned = omega arith;
  counted = omega arith;
}

pub accepted_run :
    apply_command loans (with_state enabled) true (value targets) parked ≡ done (ok_status, moved)
unfolding apply_command get_elem? set slot
accepted_run = refl

refused_run :
    apply_command loans (with_state enabled) true (value too_far) parked
    ≡ done (write_error "position" 1, half_moved)
unfolding apply_command get_elem? set slot
refused_run = refl

moved-ne : moved ≢ parked
moved-ne e = ground (arith, e)

half_moved-ne : half_moved ≢ parked
half_moved-ne e = ground (arith, e)

apply_command_contended_example :
    apply_command loans (with_state faulted) false (value targets) parked
    ≡ apply_command loans
        (on_operational_status (with_state faulted) (record { state = enabled; message = "" }))
        true
        (value targets)
        parked
apply_command_contended_example =
    apply_command_contended loans (with_state faulted) (record { state = enabled; message = "" })
      (value targets) parked refl

apply_command_guarded_example :
    ((true ≡ false) ⊎ (¬ Forbids (record { state = enabled; message = "now" })))
    × (c : Command ℕ) × (Path (Expected (Command ℕ)) (value targets) (value c))
    × Fits loans (with_state enabled) c
apply_command_guarded_example =
    apply_command_guarded loans (with_state enabled) true (value targets) parked moved ok_status
      accepted_run moved-ne

apply_command-defined_example :
    (s : Status) × (is : List ℕ) × (apply_command loans
        (with_state enabled)
        true
        (value targets)
        parked
      ≡ done (s, is))
    × IsArmed loans (with_state enabled) is
apply_command-defined_example =
    apply_command-defined loans (with_state enabled) true (value targets) parked parked-IsArmed

apply_command_writes_example :
    Wrote loans true 2 (3 ∷ 4 ∷ []) parked moved (1 * 2) 2
    × ((true ≡ false)
        ⊎ ((v : ℕ) × (get_elem? (3 ∷ 4 ∷ []) 1 ≡ some v)
            × Wrote loans true 2 (3 ∷ 4 ∷ []) parked moved (1 + 1 * 2) v))
unfolding get_elem?
apply_command_writes_example =
    apply_command_writes loans (with_state enabled) true targets parked moved ok_status
      parked-IsArmed accepted_run refl 1 2 refl

apply_command_refused_example :
    (m : ℕ) × (m < 2)
    × ((write_error "position" 1 ≡ write_error "position" m)
        ⊎ (write_error "position" 1 ≡ write_error "velocity" m))
    × ((x : ℕ) → suc m * 2 ≤ x → get_elem? half_moved x ≡ get_elem? parked x)
apply_command_refused_example =
    apply_command_refused loans (with_state enabled) true too_far parked half_moved
      (write_error "position" 1) parked-IsArmed refused_run refl half_moved-ne

abbrev pub readings : List (Option ℕ)
readings = some 5 ∷ some 6 ∷ some 7 ∷ some 8 ∷ []

abbrev pub gaps : List (Option ℕ)
gaps = some 5 ∷ some 6 ∷ none ∷ some 8 ∷ []

abbrev pub joints : List ℕ → List ℕ → Option ℕ → Joints ℕ
joints ps vs at = record {
  position = record { values = ps; updated_at = at };
  velocity = record { values = vs; updated_at = at };
  command_advertised = true;
}

abbrev pub zeros : List ℕ
zeros = 0 ∷ 0 ∷ []

zeros-IsReady : IsReady loans (with_state enabled) readings (joints zeros zeros none)
zeros-IsReady = record {
  connected = refl;
  strided = omega arith;
  velocity_strided = λ _. omega arith;
  loaned = omega arith;
  counted = omega arith;
  position_room = refl;
  velocity_room = refl;
}

read_run :
    read_status loans (with_state enabled) readings 9 (joints zeros zeros none)
    ≡ done (ok_status, joints (5 ∷ 7 ∷ []) (6 ∷ 8 ∷ []) (some 9))
unfolding read_status read_loop mutate get_elem? set slot
read_run = refl

gap_run :
    read_status loans (with_state enabled) gaps 9 (joints zeros zeros none)
    ≡ done (read_error loans "position" 1, joints (5 ∷ 0 ∷ []) zeros none)
unfolding read_status read_loop mutate get_elem? set slot
gap_run = refl

read_status_copies_example :
    ((v : ℕ) × Reads loans readings 2 0 1 v × (get_elem? (5 ∷ 7 ∷ []) 1 ≡ some v))
    × (((true ≡ false) × (Path (List ℕ) (6 ∷ 8 ∷ []) zeros))
        ⊎ ((v : ℕ) × Reads loans readings 2 1 1 v × (get_elem? (6 ∷ 8 ∷ []) 1 ≡ some v)))
    × (Path (Option ℕ) (some 9) (some 9))
    × (Path (Option ℕ) (some 9) (some 9))
read_status_copies_example =
    read_status_copies loans (with_state enabled) readings 9 (joints zeros zeros none)
      (joints (5 ∷ 7 ∷ []) (6 ∷ 8 ∷ []) (some 9)) ok_status zeros-IsReady read_run refl 1
      (omega arith)
