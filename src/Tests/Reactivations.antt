-- ===== src/Tests/Reactivations.antt =====
-- `ClearFaults` of the module with the recoveries of the three vendor nodes.
use icon_hwm_controller.Prelude.{[], ◌∷◌, some, refl, ◌≡◌, ◌⊎◌, if◌then◌else◌}
use icon_hwm_controller.OperationalStatus.{faulted}
use icon_hwm_controller.Hwm.Services.{Services, TriggerResponse}
use icon_hwm_controller.Hwm.Transitions.{clear_faults}
use icon_hwm_controller.Hwm.Transitions.Vendor.{Answers, EndsWith, Reactivates, Follows}
use icon_hwm_controller.Reactivation.{
  ur_answer, fanuc_answer, khi_answer, ur_recovery-Follows, fanuc_recovery-Reactivates,
  khi_recovery-Reactivates,
}
use icon_hwm_controller.Tests.Requests.{refusing, module_of}
use icon_hwm_controller.Tests.Nodes.Ur.{sm, rm, services as ur_services, clients}
use icon_hwm_controller.Tests.Nodes.Fanuc.{silent as fanuc_silent}
use icon_hwm_controller.Tests.Nodes.Khi.{answering as khi_answering, overheated}
use icon_hwm_controller.Ur.Recovery as UrRecovery
use icon_hwm_controller.Ur.Node as UrNode
use icon_hwm_controller.Fanuc.Recovery as FanucRecovery
use icon_hwm_controller.Fanuc.Recovery.Authority.{Restored, Unswitched, Unreset}
use icon_hwm_controller.Khi.Node.Reset.{latest_status, Resets}
use icon_hwm_controller.Khi.Status.{all_fine}
use icon_hwm_controller.Khi.Node as KhiNode

-- The other processes, with a vendor node that answers so.
abbrev with_vendor : TriggerResponse → Services
with_vendor r = record refusing { trigger_response = λ t. some r }

with_vendor-Answers :
    (r : TriggerResponse) → Answers (with_vendor r) (module_of faulted) "clear" [] r
with_vendor-Answers r = record { client_set = refl; up = refl; response = refl }

abbrev ur_says : TriggerResponse
ur_says =
    ur_answer
      (UrRecovery.clear_faults_callback ur_services sm rm clients UrNode.start UrNode.start []).0

ur_recovery-Follows_example :
    Follows
      (module_of faulted)
      "clear"
      []
      (UrRecovery.clear_faults ur_services sm rm clients UrNode.start UrNode.start []).0
      (clear_faults (with_vendor ur_says) (module_of faulted) [])
ur_recovery-Follows_example =
    ur_recovery-Follows (with_vendor ur_says) (module_of faulted) "clear" [] ur_services sm rm
      clients UrNode.start UrNode.start [] (with_vendor-Answers ur_says)

abbrev fanuc_says : TriggerResponse
fanuc_says = fanuc_answer (FanucRecovery.clear_faults_callback fanuc_silent []).0

fanuc_recovery-Reactivates_example :
    let r = clear_faults (with_vendor fanuc_says) (module_of faulted) [] in
    (Restored fanuc_silent [] × Reactivates (module_of faulted) "clear" [] r)
    ⊎ ((Unswitched fanuc_silent [] ⊎ Unreset fanuc_silent [])
        × EndsWith "clear" [] (FanucRecovery.clear_faults fanuc_silent []).0.message r)
fanuc_recovery-Reactivates_example =
    fanuc_recovery-Reactivates (with_vendor fanuc_says) (module_of faulted) "clear" [] fanuc_silent
      [] (with_vendor-Answers fanuc_says)

abbrev khi_says : TriggerResponse
khi_says =
    khi_answer (KhiNode.clear_faults_callback khi_answering (overheated ∷ []) [] KhiNode.start []).0

khi_recovery-Reactivates_example :
    let (s, _, u') = KhiNode.clear_faults khi_answering (overheated ∷ []) [] KhiNode.start [] in
    let r = clear_faults (with_vendor khi_says) (module_of faulted) [] in
    let since = latest_status all_fine [] in
    (Resets khi_answering (overheated ∷ []) [] KhiNode.start []
      × (u' ≡ KhiNode.published since ∷ KhiNode.reset_error_request ∷ [])
      × Reactivates (module_of faulted) "clear" [] r)
    ⊎ ((¬ Resets khi_answering (overheated ∷ []) [] KhiNode.start [])
        × (u'
            ≡ (if khi_answering.wait_for_service [] then KhiNode.reset_error_request ∷ [] else []))
        × EndsWith "clear" [] s.message r)
khi_recovery-Reactivates_example =
    khi_recovery-Reactivates (with_vendor khi_says) (module_of faulted) "clear" [] khi_answering
      (overheated ∷ []) [] KhiNode.start [] (with_vendor-Answers khi_says)
