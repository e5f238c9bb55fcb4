-- ===== src/Threads/Heard.antt =====
-- A hardware module that hears what the threads of a vendor node publish.
use mathlib.Core.Path.{subst}
use icon_hwm_controller.Prelude.{◌≡◌, ◌≢◌, refl, ap, ◌∙◌, true, List, [], ◌∷◌, none}
use icon_hwm_controller.Status.{is_ok, Expected}
use icon_hwm_controller.OperationalStatus.{OperationalStatus, faulted}
use icon_hwm_controller.Hwm.Params.{Hwm, on_operational_status}
use icon_hwm_controller.Hwm.Interfaces.{Loans}
use icon_hwm_controller.Hwm.Transitions.{enable_motion}
use icon_hwm_controller.Hwm.Apply.{Command, check_current_status}
use icon_hwm_controller.Safety.{Halts, Halts-of_fault}
use icon_hwm_controller.Threads.{
  Thread, topic_thread, service_thread, idle, Publisher, System, Reach,
}
use icon_hwm_controller.Threads.Fresh.{NewestSays, OnlyCopies, Reach-NewestSays}
use icon_hwm_controller.Threads.Ur.{ur_threads, ur_only_copies}
use icon_hwm_controller.Threads.Khi.{khi_threads}
use icon_hwm_controller.Threads.Vendors.{khi_reset-IsLate}
use icon_hwm_controller.Ur.Status.{SafetyMode, RobotMode}
use icon_hwm_controller.Khi.Status.{ErrorInfo, all_fine}
use icon_hwm_controller.Khi.Status.Details.{error_iff}
use icon_hwm_controller.Khi.Node.{on_error_info, dispatch}

-- The module after the messages, which are listed the newest first.
abbrev pub heard : Hwm → List (Thread × OperationalStatus) → Hwm
heard h [] = h
heard h ((by, o) ∷ os) = on_operational_status (heard h os) o

module _ (loans : Loans) (command : Expected (Command loans.Double))
    (is : List loans.CommandInterface) (h : Hwm) where
  -- When the topic thread published last, and the node says that the robot is at fault.
  quiet-Halts :
      (p : Publisher) (law : OnlyCopies p) {s : System p} {o : OperationalStatus}
      {os : List (Thread × OperationalStatus)}
      → Reach p s
      → s.topic ≡ none
      → s.seen ≡ (topic_thread, o) ∷ os
      → (p.status s.node).state ≡ faulted
      → Halts loans (heard h os) command is o
  quiet-Halts p law {s} {o} {os} r out newest fault =
      let says : o ≡ p.status s.node =
        subst (λ (l : List (Thread × OperationalStatus)). NewestSays l (p.status s.node)) newest
          (Reach-NewestSays p law r out) in
      Halts-of_fault loans (heard h os) command is o
        (ap (λ (x : OperationalStatus). x.state) says ∙ fault)

  -- However the callbacks and a recovery of the Universal Robots node interleave: while no callback runs
  -- and no recovery published last, a fault in the node's status halts a hardware module that has heard
  -- all that was published: every command whose call can read the status box, and the request to enable
  -- motion, is refused as a failed precondition, with every interface as it was.
  pub ur_quiet-Halts :
      (sm : SafetyMode) (rm : RobotMode) {s : System (ur_threads sm rm)} {o : OperationalStatus}
      {os : List (Thread × OperationalStatus)}
      → Reach (ur_threads sm rm) s
      → s.topic ≡ none
      → s.seen ≡ (topic_thread, o) ∷ os
      → s.node.operational_status.state ≡ faulted
      → Halts loans (heard h os) command is o
  ur_quiet-Halts sm rm = quiet-Halts (ur_threads sm rm) (ur_only_copies sm rm)

-- The node says that the robot is at fault, and a module that has heard all that it published takes
-- commands and enables motion.
pub record Unblocked (h : Hwm) : Type 0 where
  pub after : System khi_threads
  pub reached : Reach khi_threads after
  pub topic_out : after.topic ≡ none
  pub service_out : after.service ≡ idle
  pub at_fault : after.node.operational_status.state ≡ faulted
  pub takes_commands :
      is_ok (check_current_status (heard h after.seen).latest_operational_status) ≡ true
  pub enables_motion : is_ok (enable_motion (heard h after.seen)) ≡ true

fine_unblocks :
    (h : Hwm) (seen : List (Thread × OperationalStatus)) (os : List (Thread × OperationalStatus))
    → seen ≡ (service_thread, all_fine) ∷ os
    → (is_ok (check_current_status (heard h seen).latest_operational_status) ≡ true)
      × (is_ok (enable_motion (heard h seen)) ≡ true)
unfolding check_current_status enable_motion on_operational_status
fine_unblocks h seen os e = rw e (refl, refl)

-- From every state of the Kawasaki node in which no thread runs, a reset and the report of an error can
-- interleave so that no thread runs afterwards, the node's status is faulted, and a hardware module that
-- has heard all that was published takes commands and enables motion.
pub khi_reset_unblocks :
    {s : System khi_threads} (e : ErrorInfo) (h : Hwm)
    → e.error_codes ≢ []
    → Reach khi_threads s
    → s.topic ≡ none
    → s.service ≡ idle
    → Unblocked h
unfolding dispatch on_error_info
khi_reset_unblocks e h some_error r out free =
    let late = khi_reset-IsLate e r out free in
    let (commands, motion) = fine_unblocks h late.after.seen _ late.saw in
    record {
      after = late.after;
      reached = late.reached;
      topic_out = late.topic_out;
      service_out = late.service_out;
      at_fault =
          ap (λ (o : OperationalStatus). o.state) late.node_says ∙ (error_iff e).1.1 some_error;
      takes_commands = commands;
      enables_motion = motion;
    }
