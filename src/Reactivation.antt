-- ===== src/Reactivation.antt =====
-- From a vendor's recovery to the hardware module: `Ros2HwmImpl::ClearFaults` calls the service of a
-- vendor node, and the outcome of its recovery decides whether the robot is activated again.
use icon_hwm_controller.Prelude.{String, List, ◌∷◌, ◌≡◌, ◌⊎◌, inl, inr, if◌then◌else◌}
use icon_hwm_controller.Hwm.Params.{Hwm}
use icon_hwm_controller.Hwm.Services.{Services, Trace, TriggerResponse}
use icon_hwm_controller.Hwm.Transitions.{clear_faults}
use icon_hwm_controller.Hwm.Transitions.Vendor.{
  Answers, EndsWith, Reactivates, Follows, clear_faults-Follows, clear_faults-EndsWith,
  clear_faults-Reactivates,
}
use icon_hwm_controller.Ur.Status.{SafetyMode, RobotMode}
use icon_hwm_controller.Ur.Node.{Node as UrNode}
use icon_hwm_controller.Ur.Recovery as UrRecovery
use icon_hwm_controller.Fanuc.Recovery as FanucRecovery
use icon_hwm_controller.Fanuc.Recovery.Authority.{Restored, Unswitched, Unreset, recovery-Ways}
use icon_hwm_controller.Khi.Node as KhiNode
use icon_hwm_controller.Khi.Node.Reset.{latest_status, Resets, clear_faults_leaves}
use icon_hwm_controller.Khi.Status.{ErrorInfo, all_fine}

-- The answers of the three nodes as the module receives them.
abbrev pub ur_answer : UrRecovery.TriggerResponse → TriggerResponse
ur_answer r = record { success = r.success; message = r.message }

abbrev pub fanuc_answer : FanucRecovery.Response → TriggerResponse
fanuc_answer r = record { success = r.success; message = r.message }

abbrev pub khi_answer : KhiNode.Response → TriggerResponse
khi_answer r = record { success = r.success; message = r.message }

module _ (services : Services) (h : Hwm) (service : String) (t : Trace) where
  -- When the service that the module triggers is there and answers as the Universal Robots node does,
  -- a recovery that failed ends `ClearFaults` with the node's message and nothing sent after the
  -- trigger; after one that succeeded the module sends the activation of the component and then the
  -- controller switch, as far as each succeeds.
  pub ur_recovery-Follows :
      (ur : UrRecovery.Services) (sm : SafetyMode) (rm : RobotMode) (clients : UrRecovery.Clients)
      (before after : UrNode) (u : UrRecovery.Trace)
      → Answers services h service t
          (ur_answer (UrRecovery.clear_faults_callback ur sm rm clients before after u).0)
      → Follows h service t
          (UrRecovery.clear_faults ur sm rm clients before after u).0
          (clear_faults services h t)
  unfolding UrRecovery.clear_faults_callback
  ur_recovery-Follows ur sm rm clients before after u v =
      clear_faults-Follows services h service t _ _ v

  -- When the service that the module triggers is there and answers as the FANUC node does, there are three
  -- ways. The node's reset was answered with the code 0 and so, 200 ms later, was its request for motion
  -- control: then the node has sent both, and `ClearFaults` sends the activation and then the controller
  -- switch, as far as each succeeds. Or the reset was and the request was not, or the reset was not, and
  -- then motion control was not asked for: in both, `ClearFaults` ends with the node's message and
  -- nothing sent after the trigger.
  pub fanuc_recovery-Reactivates :
      (fanuc : FanucRecovery.Services) (u : FanucRecovery.Trace)
      → Answers services h service t (fanuc_answer (FanucRecovery.clear_faults_callback fanuc u).0)
      → let r = clear_faults services h t in
        (Restored fanuc u × Reactivates h service t r)
        ⊎ ((Unswitched fanuc u ⊎ Unreset fanuc u)
            × EndsWith service t (FanucRecovery.clear_faults fanuc u).0.message r)
  unfolding FanucRecovery.clear_faults_callback
  fanuc_recovery-Reactivates fanuc u v = elim (recovery-Ways fanuc u) [
    | inl (fine, restored) ↦
        inl (restored, clear_faults-Reactivates services h service t _ _ v fine)
    | inr (bad, other) ↦ inr (other, clear_faults-EndsWith services h service t _ _ v bad)
  ]

  -- When the service that the module triggers is there and answers as the Kawasaki node does, whatever
  -- reports came in meanwhile, there are two ways. The driver's reset was there, answered in time and
  -- reported success: then the node has published the status of the latest report since, or `enabled`,
  -- and `ClearFaults` sends the activation and then the controller switch, as far as each succeeds. Or
  -- not: then the node has published nothing, and `ClearFaults` ends with the node's message and nothing
  -- sent after the trigger.
  pub khi_recovery-Reactivates :
      (khi : KhiNode.Services) (during between : List ErrorInfo) (n : KhiNode.Node)
      (u : KhiNode.Trace)
      → Answers services h service t
          (khi_answer (KhiNode.clear_faults_callback khi during between n u).0)
      → let (s, _, u') = KhiNode.clear_faults khi during between n u in
        let r = clear_faults services h t in
        let since = latest_status all_fine between in
        (Resets khi during between n u
          × (u' ≡ KhiNode.published since ∷ KhiNode.reset_error_request ∷ u)
          × Reactivates h service t r)
        ⊎ ((¬ Resets khi during between n u)
            × (u' ≡ (if khi.wait_for_service u then KhiNode.reset_error_request ∷ u else u))
            × EndsWith service t s.message r)
  unfolding KhiNode.clear_faults_callback
  khi_recovery-Reactivates khi during between n u v =
      elim (clear_faults_leaves khi during between n u) [
        | inl (reset, fine, _, sent) ↦
            inl (reset, sent, clear_faults-Reactivates services h service t _ _ v fine)
        | inr (unreset, bad, _, sent) ↦
            inr (unreset, sent, clear_faults-EndsWith services h service t _ _ v bad)
      ]
