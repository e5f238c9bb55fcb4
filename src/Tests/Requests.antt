-- ===== src/Tests/Requests.antt =====
-- State transitions of the hardware module, with services that all answer and with none.
use icon_hwm_controller.Prelude.{ℕ, ◌≡◌, ◌≢◌, ◌↔◌, true, false, [], ◌∷◌, some, if◌then◌else◌, ◌==◌}
use icon_hwm_controller.Status.{StatusCode, ok_status, is_ok}
use icon_hwm_controller.OperationalStatus.{OperationalStatus, faulted, enabled}
use icon_hwm_controller.Hwm.Params.{Hwm, to_controller, on_operational_status}
use icon_hwm_controller.Hwm.Services.{Services}
use icon_hwm_controller.Hwm.Transitions.{
  prepare, clear_faults, shutdown, enable_motion, disable_motion,
}
use icon_hwm_controller.Hwm.Transitions.Success.{motion_gate}
use icon_hwm_controller.Hwm.Transitions.Steps.{
  perform, activating, clearing, deactivating, prepare_steps, clear_faults_steps, shutdown_steps,
}
use icon_hwm_controller.Hwm.Transitions.Sequence.{transitions_in_sequence}

abbrev pub healthy : Services
healthy = record {
  wait_for_service = λ t c. true;
  trigger_response = λ t. some (record { success = true; message = "" });
  set_hw_state_response = λ t. some true;
  switch_controller_response = λ t. some true;
  clock_response = λ t. ok_status;
}

-- The switch of the controllers is refused.
abbrev pub refusing : Services
refusing = record healthy { switch_controller_response = λ t. some false }

abbrev pub module_of : ℕ → Hwm
module_of s = record {
  params = record {
    hardware_component_name = "arm";
    num_dofs = 6;
    state_interfaces = to_controller;
    command_interfaces = to_controller;
    state_stride = 2;
    command_stride = 1;
    has_velocity_state = true;
    has_velocity_command = false;
    operational_status_topic = "status";
    clear_faults_service = "clear";
    controllers_to_activate = "icon" ∷ [];
    controllers_to_deactivate = "teach" ∷ [];
    clock = true;
  };
  latest_operational_status = record { state = s; message = "now" };
  operational_status_subscription = some "status";
  clear_faults_client = some "clear";
}

abbrev recovered : OperationalStatus
recovered = record { state = enabled; message = "" }

motion_gate_example :
    let h = on_operational_status (module_of faulted) recovered in
    ((is_ok (enable_motion h) ≡ true) ↔ (recovered.state ≢ faulted))
    × ((is_ok (disable_motion h) ≡ true) ↔ (recovered.state ≢ faulted))
    × ((enable_motion h).code
        ≡ (if recovered.state == faulted then StatusCode.failed_precondition else StatusCode.ok))
    × ((disable_motion h).code ≡ (enable_motion h).code)
motion_gate_example = motion_gate (module_of faulted) recovered

transitions_in_sequence_example :
    (prepare refusing (module_of enabled) []
      ≡ perform refusing activating (prepare_steps (module_of enabled)) [])
    × (clear_faults refusing (module_of enabled) []
        ≡ perform refusing clearing (clear_faults_steps (module_of enabled)) [])
    × (shutdown refusing (module_of enabled) []
        ≡ perform refusing deactivating (shutdown_steps (module_of enabled)) [])
transitions_in_sequence_example = transitions_in_sequence refusing (module_of enabled) []
