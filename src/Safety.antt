-- ===== src/Safety.antt =====
-- From a vendor's report to the command interfaces: the node publishes a status, the hardware module
-- takes it in, and commands and motion requests meet it.
use icon_hwm_controller.Prelude.{
  ℕ, ℤ, ◌≡◌, ◌≢◌, ◌⊎◌, inl, inr, refl, Bool, ap, ◌∙◌, true, List, [], some, arith,
}
use icon_hwm_controller.Status.{Status, StatusCode, done, Expected}
use icon_hwm_controller.OperationalStatus.{OperationalStatus, faulted}
use icon_hwm_controller.Hwm.Params.{Hwm, on_operational_status}
use icon_hwm_controller.Hwm.Interfaces.{Loans}
use icon_hwm_controller.Hwm.Transitions.{enable_motion}
use icon_hwm_controller.Hwm.Apply.{Command, apply_command}
use icon_hwm_controller.Hwm.Apply.Guards.{apply_command_blocked}
use icon_hwm_controller.Ur.Status.{RobotStatus, SafetyMode, RobotMode}
use icon_hwm_controller.Ur.Status.Meaning.{unsafe_faulted}
use icon_hwm_controller.Ur.Node.{start, Callback, run, publish_operational_status}
use icon_hwm_controller.Ur.Node.History.{latest, run_status}
use icon_hwm_controller.Fanuc.Status.Meaning.{fanuc_faulted_iff}
use icon_hwm_controller.Fanuc.Status.{ContactStopMode, RobotStatus as FanucStatus}
use icon_hwm_controller.Fanuc.Node.{Node as FanucNode, on_robot_status}
use icon_hwm_controller.Khi.Status.{ErrorInfo}
use icon_hwm_controller.Khi.Status.Details.{error_iff}
use icon_hwm_controller.Khi.Node.{Node as KhiNode, on_error_info}

module _ (loans : Loans) (h : Hwm) (command : Expected (Command loans.Double))
    (is : List loans.CommandInterface) where
  -- After the message has come in, a command that can read the status is refused with every
  -- interface as it was, and so is the request to enable motion.
  pub record Halts (msg : OperationalStatus) : Type 0 where
    pub refusal : Status
    pub unwritten :
        apply_command loans (on_operational_status h msg) true command is ≡ done (refusal, is)
    pub because : refusal.code ≡ StatusCode.failed_precondition
    pub no_motion :
        (enable_motion (on_operational_status h msg)).code ≡ StatusCode.failed_precondition

  refused_motion :
      (msg : OperationalStatus)
      → msg.state ≡ faulted
      → (enable_motion (on_operational_status h msg)).code ≡ StatusCode.failed_precondition
  unfolding enable_motion on_operational_status
  refused_motion msg e = ground arith

  received :
      (msg : OperationalStatus) → (on_operational_status h msg).latest_operational_status ≡ msg
  unfolding on_operational_status
  received msg = refl

  pub Halts-of_fault : (msg : OperationalStatus) → msg.state ≡ faulted → Halts msg
  Halts-of_fault msg e =
      let (s, run, code) =
        apply_command_blocked loans (on_operational_status h msg) command is
          (inr (ap (λ (o : OperationalStatus). o.state) (received msg) ∙ e)) in
      record { refusal = s; unwritten = run; because = code; no_motion = refused_motion msg e }

  -- In every history of callbacks of the Universal Robots node after which all three topics have a
  -- value and the safety mode is neither `NORMAL` nor `REDUCED`, what the node publishes next halts the
  -- hardware module: once it has come in, every command whose call can read the status box, and the
  -- request to enable motion, is refused as a failed precondition, with every interface as it was.
  pub ur_stop-Halts :
      (sm : SafetyMode) (rm : RobotMode) (cs : List Callback) (m : ℕ) (r : ℤ) (b : Bool)
      → latest start.robot_status cs
        ≡ record { robot_mode = some r; safety_mode = some m; program_running = some b }
      → m ≢ sm.normal
      → m ≢ sm.reduced
      → Halts (publish_operational_status sm rm (run sm rm start cs).0).1
  unfolding publish_operational_status
  ur_stop-Halts sm rm cs m r b e n u =
      let (_, status) = run_status sm rm cs in
      Halts-of_fault _ (
        ap (λ (o : OperationalStatus). o.state) status
        ∙ unsafe_faulted sm rm (latest start.robot_status cs) m r b
            (ap (λ (s : RobotStatus). s.safety_mode) e) n u
            (ap (λ (s : RobotStatus). s.robot_mode) e)
            (ap (λ (s : RobotStatus). s.program_running) e))

  -- When a FANUC robot reports an emergency stop or a contact stop, also while the teach pendant is
  -- enabled, what the node publishes halts the hardware module: once it has come in, every command whose
  -- call can read the status box, and the request to enable motion, is refused as a failed precondition,
  -- with every interface as it was.
  pub fanuc_stop-Halts :
      (modes : ContactStopMode) (n : FanucNode) (r : FanucStatus)
      → (r.e_stopped ≡ true) ⊎ (r.contact_stop_mode ≢ modes.mode_none)
      → Halts (on_robot_status modes n r).1
  unfolding on_robot_status
  fanuc_stop-Halts modes n r stop =
      Halts-of_fault _
        ((fanuc_faulted_iff modes r).1 (elim stop [ inl e ↦ inl e | inr c ↦ inr (inl c) ]))

  -- When a Kawasaki robot reports an error code, what the node publishes halts the hardware module: once
  -- it has come in, every command whose call can read the status box, and the request to enable motion,
  -- is refused as a failed precondition, with every interface as it was.
  pub khi_error-Halts :
      (n : KhiNode) (e : ErrorInfo) → e.error_codes ≢ [] → Halts (on_error_info n e).1
  unfolding on_error_info
  khi_error-Halts n e c = Halts-of_fault _ ((error_iff e).1.1 c)
