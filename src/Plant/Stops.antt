-- ===== src/Plant/Stops.antt =====
-- A robot whose node reports a fault stands still.
use mathlib.Core.Path.{subst}
use icon_hwm_controller.Prelude.{◌≡◌, sym, ◌∙◌, List, [], ◌∷◌, none}
use icon_hwm_controller.OperationalStatus.{OperationalStatus}
use icon_hwm_controller.Hwm.Interfaces.{Loans}
use icon_hwm_controller.Hwm.Apply.Guards.{Forbids}
use icon_hwm_controller.Ur.Status.{SafetyMode, RobotMode}
use icon_hwm_controller.Fanuc.Status.{ContactStopMode}
use icon_hwm_controller.Threads.{Thread, topic_thread, Publisher, Reach}
use icon_hwm_controller.Threads.Fresh.{NewestSays, OnlyCopies, Reach-NewestSays}
use icon_hwm_controller.Threads.Ur.{ur_threads, ur_only_copies}
use icon_hwm_controller.Threads.Fanuc.{fanuc_threads, fanuc_only_copies}
use icon_hwm_controller.Cycle.{System as Module, Label, Run as CycleRun}
use icon_hwm_controller.Cycle.Halted.{AllCalm, halted_until_released}
use icon_hwm_controller.Plant.{State, Run}
use icon_hwm_controller.Plant.Newest.{drained-told, Run-told, Run-Reach, Run-seen}

-- The vendors whose recovery leaves the status as it is.
pub data Copying : Publisher → Type 1 where
  ur : (sm : SafetyMode) (rm : RobotMode) → Copying (ur_threads sm rm)
  fanuc : (modes : ContactStopMode) → Copying (fanuc_threads modes)

Copying-OnlyCopies : {p : Publisher} → Copying p → OnlyCopies p
Copying-OnlyCopies (ur sm rm) = ur_only_copies sm rm
Copying-OnlyCopies (fanuc modes) = fanuc_only_copies modes

module _ (p : Publisher) (loans : Loans) (law : OnlyCopies p) where
  open p use {status}

  -- While no callback runs, the newest message says the node's status, if the topic thread published it.
  newest-status :
      {s t : State p loans} {o : OperationalStatus} {seen : List (Thread × OperationalStatus)}
      → Reach p s.node
      → Run p loans s ((topic_thread, o) ∷ seen) t
      → t.node.topic ≡ none
      → o ≡ status t.node.node
  newest-status {t} v r out =
      subst (λ (l : List (Thread × OperationalStatus)). NewestSays l (status t.node.node))
        (Run-seen p loans r) (Reach-NewestSays p law (Run-Reach p loans v r) out)

  -- Once all messages have come in, the module has the node's status.
  pub quiet-latest :
      {s t : State p loans} {o : OperationalStatus} {seen : List (Thread × OperationalStatus)}
      → Reach p s.node
      → Run p loans s ((topic_thread, o) ∷ seen) t
      → t.node.topic ≡ none
      → t.topic ≡ []
      → t.hwm.hwm.latest_operational_status ≡ status t.node.node
  quiet-latest {s} {t} v r out empty =
      sym (drained-told p loans t empty) ∙ Run-told p loans r ∙ newest-status v r out

-- In a run of the robot, of a Universal Robots or a FANUC node: when the topic thread has published last,
-- no callback runs, all messages have come in, and the node's status is disabled or faulted, then every
-- command interface stays as it is in all cycles that follow, until another status is stored that does
-- not forbid motion, or a command falls into the time in which another thread has the lock of the status.
pub stopped_robot_stands :
    {p : Publisher} (vendor : Copying p) (loans : Loans) {s t : State p loans}
    {o : OperationalStatus} {seen : List (Thread × OperationalStatus)} {m : Module loans}
    {ls : List Label}
    → Reach p s.node
    → Run p loans s ((topic_thread, o) ∷ seen) t
    → t.node.topic ≡ none
    → t.topic ≡ []
    → Forbids (p.status t.node.node)
    → CycleRun loans t.hwm ls m
    → AllCalm ls
    → (m.interfaces ≡ t.hwm.interfaces) × Forbids m.hwm.latest_operational_status
stopped_robot_stands {p} vendor loans {s} {t} v r out empty stop on calm =
    let latest = quiet-latest p loans (Copying-OnlyCopies vendor) v r out empty in
    let (still, same) = halted_until_released loans on calm (subst Forbids (sym latest) stop) in
    (same, still)
