-- ===== src/Tests/Nodes/Khi.antt =====
-- Reports and resets of the Kawasaki node.
use icon_hwm_controller.Prelude.{◌⊎◌, pos, ◌≡◌, true, false, [], ◌∷◌, none, some, if◌then◌else◌}
use icon_hwm_controller.Status.{is_ok}
use icon_hwm_controller.Khi.Status.{ErrorInfo, all_fine}
use icon_hwm_controller.Khi.Node.{start, Services, reset_error_request, published, clear_faults}
use icon_hwm_controller.Khi.Node.Reset.{Resets, latest_status, clear_faults_leaves}

abbrev pub overheated : ErrorInfo
overheated = record { error_codes = pos 5 ∷ []; error_msgs = "" ∷ "hot" ∷ "stop" ∷ [] }

abbrev pub answering : Services
answering = record {
  service_name = "reset_error";
  wait_for_service = λ t. true;
  response = λ t. some (record { success = true; error_msgs = [] });
}

abbrev pub silent : Services
silent = record answering { response = λ t. none }

clear_faults_leaves_example :
    let (s, n', t') = clear_faults silent (overheated ∷ []) [] start [] in
    let since = latest_status all_fine [] in
    (Resets silent (overheated ∷ []) [] start []
      × (is_ok s ≡ true)
      × (n' ≡ record { operational_status = since })
      × (t' ≡ published since ∷ reset_error_request ∷ []))
    ⊎ ((¬ Resets silent (overheated ∷ []) [] start [])
        × (is_ok s ≡ false)
        × (n' ≡ record {
          operational_status = latest_status start.operational_status (overheated ∷ []);
        })
        × (t' ≡ (if silent.wait_for_service [] then reset_error_request ∷ [] else [])))
clear_faults_leaves_example = clear_faults_leaves silent (overheated ∷ []) [] start []
