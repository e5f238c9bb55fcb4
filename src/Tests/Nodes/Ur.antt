-- ===== src/Tests/Nodes/Ur.antt =====
-- Statuses, histories and recoveries of the Universal Robots node.
use icon_hwm_controller.Prelude.{
  ◌++◌, pos, negsuc, ◌≡◌, ◌⊎◌, ◌↔◌, refl, true, false, List, [], ◌∷◌, none, some, arith, value_or,
  get_elem?,
}
use icon_hwm_controller.Status.{ok_status}
use icon_hwm_controller.OperationalStatus.{enabled}
use icon_hwm_controller.Ur.Status.{RobotStatus, SafetyMode, RobotMode, to_operational_status}
use icon_hwm_controller.Ur.Status.Meaning.{IsDistinct, Moves, enabled_iff}
use icon_hwm_controller.Ur.Node.{
  start, Callback, robot_mode_callback, safety_mode_callback, program_running_callback, run,
  dispatch,
}
use mathlib.Core.Equiv.{IsEquiv}
use mathlib.Core.Quot
use icon_hwm_controller.Ur.Node.Topics.{topics, settled, histories_are_topics}
use icon_hwm_controller.Ur.Node.History.{latest}
use icon_hwm_controller.Ur.Recovery.{
  published, Trace, Services, Clients, make_clients, clear_faults,
}
use icon_hwm_controller.Ur.Recovery.Publications.{publications, clear_faults_publishes}
use icon_hwm_controller.Ur.Recovery.Plan.{
  Mode, normal, reduced, protective_stop, recovery, safeguard_stop, system_emergency_stop,
  robot_emergency_stop, violation, fault, validate_joint_id, undefined_safety_mode,
  automatic_mode_safeguard_stop, system_three_position_enabling_stop, code_of, HasDistinctCodes,
  NeedsRestart, Reads, recovery_plan,
}
use icon_hwm_controller.Ur.Recovery.Sequence.{IsRecoverable, recovery_sequence}
use icon_hwm_controller.Ur.Recovery.Restraint.{requests, restraint}

abbrev pub sm : SafetyMode
sm = record {
  normal = 1;
  reduced = 2;
  protective_stop = 3;
  recovery = 4;
  safeguard_stop = 5;
  system_emergency_stop = 6;
  robot_emergency_stop = 7;
  violation = 8;
  fault = 9;
  validate_joint_id = 10;
  undefined_safety_mode = 11;
  automatic_mode_safeguard_stop = 12;
  system_three_position_enabling_stop = 13;
}

abbrev pub rm : RobotMode
rm = record {
  no_controller = negsuc 0;
  disconnected = pos 0;
  confirm_safety = pos 1;
  booting = pos 2;
  power_off = pos 3;
  power_on = pos 4;
  idle = pos 5;
  backdrive = pos 6;
  running = pos 7;
  updating_firmware = pos 8;
}

rm-IsDistinct : IsDistinct rm
rm-IsDistinct = record {
  not_no_controller = λ e. ground (arith, e);
  not_disconnected = λ e. ground (arith, e);
  not_confirm_safety = λ e. ground (arith, e);
  not_booting = λ e. ground (arith, e);
  not_power_off = λ e. ground (arith, e);
  not_power_on = λ e. ground (arith, e);
  not_idle = λ e. ground (arith, e);
  not_backdrive = λ e. ground (arith, e);
  not_updating_firmware = λ e. ground (arith, e);
}

abbrev moving : RobotStatus
moving = record { robot_mode = some (pos 7); safety_mode = some 2; program_running = some true }

abbrev stopped : RobotStatus
stopped = record { robot_mode = some (pos 7); safety_mode = some 3; program_running = some true }

enabled_iff_example : ((to_operational_status sm rm moving).state ≡ enabled) ↔ Moves sm rm moving
enabled_iff_example = enabled_iff sm rm moving rm-IsDistinct

abbrev pub history : List Callback
history =
    robot_mode_callback (pos 7)
    ∷ safety_mode_callback 1
    ∷ program_running_callback true
    ∷ safety_mode_callback 3
    ∷ []

-- The action fails, and the program can be sent again.
abbrev pub services : Services
services = record {
  service_name = λ s. s;
  service_is_ready = λ t s. true;
  wait_for_service = λ t s. true;
  trigger_response = λ t. some (record { success = true; message = "" });
  action_server_is_ready = λ t. true;
  wait_for_action_server = λ t. true;
  goal_accepted = λ t. some false;
  action_result = λ t. none;
}

abbrev pub clients : Clients
clients = make_clients 5 30

clear_faults_publishes_example :
    (rest : Trace) × ((clear_faults services sm rm clients start (run sm rm start history).0 []).1
      ≡ published (to_operational_status sm rm (latest start.robot_status history)) ∷ rest)
    × (publications rest ≡ publications [])
clear_faults_publishes_example = clear_faults_publishes services sm rm clients start history []

restraint_example :
    let m =
      value_or (run sm rm start history).0.robot_status.safety_mode sm.undefined_safety_mode in
    let sent = (clear_faults services sm rm clients (run sm rm start history).0 start []).1 in
    (NeedsRestart sm m
      ⊎ (requests "dashboard_client/restart_safety" sent
          ≡ requests "dashboard_client/restart_safety" []))
    × ((m ≡ sm.protective_stop)
        ⊎ (requests "dashboard_client/unlock_protective_stop" sent
            ≡ requests "dashboard_client/unlock_protective_stop" []))
restraint_example = restraint services sm rm 5 30 (run sm rm start history).0 start []

histories_are_topics_example :
    IsEquiv topics
    × ((cs : List Callback) → (run sm rm start cs).0 ≡ settled sm rm (topics (Quot.mk cs)))
histories_are_topics_example = histories_are_topics sm rm

-- Everything is there and the action succeeds; a trigger still fails.
abbrev recoverable : Services
recoverable = record services {
  trigger_response = λ t. some (record { success = false; message = "busy" });
  goal_accepted = λ t. some true;
  action_result = λ t.
      some (record { succeeded = true; result = some (record { success = true; message = "" }) });
}

recoverable-IsRecoverable : IsRecoverable recoverable
recoverable-IsRecoverable = record {
  ready = λ t name. refl;
  server = λ t. refl;
  accepted = λ t. refl;
  result = λ t. (record { success = true; message = "" }, refl, refl);
}

-- The mode of each code from 1 to 13.
modes : List Mode
modes =
    normal ∷ normal ∷ reduced ∷ protective_stop ∷ recovery ∷ safeguard_stop ∷ system_emergency_stop
    ∷ robot_emergency_stop ∷ violation ∷ fault ∷ validate_joint_id ∷ undefined_safety_mode
    ∷ automatic_mode_safeguard_stop ∷ system_three_position_enabling_stop ∷ []

mode_at : (a : Mode) → get_elem? modes (code_of sm a) ≡ some a
unfolding modes get_elem?
mode_at normal = refl
mode_at reduced = refl
mode_at protective_stop = refl
mode_at recovery = refl
mode_at safeguard_stop = refl
mode_at system_emergency_stop = refl
mode_at robot_emergency_stop = refl
mode_at violation = refl
mode_at fault = refl
mode_at validate_joint_id = refl
mode_at undefined_safety_mode = refl
mode_at automatic_mode_safeguard_stop = refl
mode_at system_three_position_enabling_stop = refl

sm-HasDistinctCodes : HasDistinctCodes sm
sm-HasDistinctCodes a b e = cc (mode_at a, mode_at b)

stop_read :
    Reads sm
      (value_or (run sm rm start history).0.robot_status.safety_mode sm.undefined_safety_mode)
      (some protective_stop)
unfolding run dispatch
stop_read = refl

recovery_sequence_example :
    clear_faults recoverable sm rm clients (run sm rm start history).0 start [] ≡ (
      ok_status,
      published start.operational_status
          ∷ (recovery_plan rm (some protective_stop) (run sm rm start history).0.robot_status
              ++ []),
    )
recovery_sequence_example =
    recovery_sequence recoverable sm rm 5 30 sm-HasDistinctCodes recoverable-IsRecoverable
      (run sm rm start history).0 start (some protective_stop) [] stop_read
