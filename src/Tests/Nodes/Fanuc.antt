-- ===== src/Tests/Nodes/Fanuc.antt =====
-- Statuses and recoveries of the FANUC node.
use icon_hwm_controller.Prelude.{pos, ◌≡◌, ◌↔◌, true, false, [], none, some}
use icon_hwm_controller.Status.{is_ok}
use icon_hwm_controller.Fanuc.Status.{RobotStatus, ContactStopMode}
use icon_hwm_controller.Fanuc.Recovery.{
  reset_client, switch_control_state_client, reset_request, switch_control_state_request, Services,
  clear_faults,
}
use icon_hwm_controller.Fanuc.Recovery.Authority.{Answers, after_reset, recovery_iff}

abbrev pub modes : ContactStopMode
modes = record { mode_none = 0; mode_safe = 2 }

abbrev pub stopped : RobotStatus
stopped = record {
  in_error = false;
  e_stopped = true;
  motion_possible = true;
  tp_enabled = true;
  contact_stop_mode = 0;
}

abbrev pub answering : Services
answering = record {
  service_name = λ c. "service";
  wait_for_service = λ t c. true;
  response = λ t. some (pos 0);
}

abbrev pub silent : Services
silent = record answering { response = λ t. none }

recovery_iff_example : (is_ok (clear_faults answering []).0 ≡ true) ↔ (
    Answers answering reset_client reset_request []
    × Answers answering switch_control_state_client
        (switch_control_state_request 1)
        (after_reset answering []))
recovery_iff_example = recovery_iff answering []
