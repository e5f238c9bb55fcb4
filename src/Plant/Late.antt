-- ===== src/Plant/Late.antt =====
-- What the late message of a recovery does to the robot.
use icon_hwm_controller.Prelude.{
  ℕ, ◌≡◌, ◌≢◌, refl, sym, ap, ◌∙◌, true, false, List, [], ◌∷◌, ◌++◌, none, arith, inl, inr,
  Bool-cases, ◌==◌,
}
use icon_hwm_controller.Status.{is_ok, ok_status, done, value}
use icon_hwm_controller.OperationalStatus.{OperationalStatus, faulted}
use icon_hwm_controller.Hwm.Params.{Hwm, on_operational_status}
use icon_hwm_controller.Hwm.Interfaces.{Loans}
use icon_hwm_controller.Hwm.Transitions.{enable_motion}
use icon_hwm_controller.Hwm.Apply.{Command, apply_command}
use icon_hwm_controller.Hwm.Apply.Guards.{Forbids, Fits}
use icon_hwm_controller.Hwm.Apply.Accepts.{Accepts, command_succeeds}
use icon_hwm_controller.Threads.{
  idle, copied, Thread, topic_thread, service_thread, Publisher, topic_locks, topic_publishes,
  service_locks, service_publishes,
}
use icon_hwm_controller.Threads.Ur.{copies as ur_copies, ur_threads}
use icon_hwm_controller.Threads.Khi.{clears, copies as khi_copies, khi_threads}
use icon_hwm_controller.Ur.Status.{SafetyMode, RobotMode}
use icon_hwm_controller.Ur.Node.{Node as UrNode, publish_operational_status}
use icon_hwm_controller.Khi.Status.{all_fine}
use icon_hwm_controller.Khi.Node.{Node as KhiNode, publish_operational_status as khi_publish}
use icon_hwm_controller.Cycle.{lock, store, unlock}
use icon_hwm_controller.Cycle.Bounds.{IsSound, status_IsArmed}
use icon_hwm_controller.Plant.{State, Run, stays, steps, publishes, works, receives, cycles}

-- At its end a recovery holds a copy of a status that it is about to publish: a Universal Robots node's
-- own, and in a Kawasaki node that all is fine, which is then also the node's status.
pub data Holds : (p : Publisher) → p.Node → OperationalStatus → p.Node → Type 1 where
  ur :
      (sm : SafetyMode) (rm : RobotMode) (n : UrNode)
      → Holds (ur_threads sm rm) n n.operational_status n
  khi : (n : KhiNode) → Holds khi_threads n all_fine (record { operational_status = all_fine })

module _ (p : Publisher) (loans : Loans) where
  open p use {Message, status, dispatch, Node}

  -- No thread of the node runs, nothing is on its way, and the lock of the status is free.
  pub record IsQuiet (s : State p loans) : Type 0 where
    pub topic_out : s.node.topic ≡ none
    pub service_out : s.node.service ≡ idle
    pub arrived : s.topic ≡ []
    pub unlocked : s.hwm.held ≡ false

  -- A run to a quiet state in which the node says that the robot is at fault, and the module enables
  -- motion and writes the command.
  pub record MovesAtFault (s : State p loans) (c : Command loans.Double) : Type 0 where
    pub after : State p loans
    pub seen : List (Thread × OperationalStatus)
    pub run : Run p loans s seen after
    pub quiet : IsQuiet after
    pub at_fault : (status after.node.node).state ≡ faulted
    pub enables_motion : is_ok (enable_motion after.hwm.hwm) ≡ true
    pub moved : List loans.CommandInterface
    pub succeeded :
        apply_command loans after.hwm.hwm true (value c) after.hwm.interfaces
        ≡ done (ok_status, moved)

  -- The module hears the two messages.
  abbrev told_both : Hwm → OperationalStatus → OperationalStatus → Hwm
  told_both h new late = on_operational_status (on_operational_status h new) late

  -- The state after a whole callback and the late publication.
  abbrev overtaken : State p loans → Message → OperationalStatus → State p loans
  overtaken t m late = record {
    node = record {
      node = (dispatch t.node.node m).0;
      topic = none;
      service = idle;
      seen = (service_thread, late) ∷ (topic_thread, (dispatch t.node.node m).1) ∷ t.node.seen;
    };
    topic = [];
    hwm = record t.hwm { hwm = told_both t.hwm.hwm (dispatch t.node.node m).1 late; held = false };
  }

  -- Both publications are on their way.
  abbrev published : State p loans → Message → OperationalStatus → State p loans
  published t m late = record t {
    node = record {
      node = (dispatch t.node.node m).0;
      topic = none;
      service = idle;
      seen = (service_thread, late) ∷ (topic_thread, (dispatch t.node.node m).1) ∷ t.node.seen;
    };
    topic = (t.topic ++ ((dispatch t.node.node m).1 ∷ [])) ++ (late ∷ []);
  }

  publishing :
      {s t : State p loans} {seen : List (Thread × OperationalStatus)} (late : OperationalStatus)
      (m : Message)
      → Run p loans s seen t
      → t.node.topic ≡ none
      → t.node.service ≡ copied late
      → Run p loans s
          ((service_thread, late) ∷ (topic_thread, (dispatch t.node.node m).1) ∷ seen)
          (published t m late)
  publishing {t} late m r out holds =
      publishes service_thread late
        (publishes topic_thread (dispatch t.node.node m).1
          (steps r (works (topic_locks m out) refl)) (topic_publishes _ refl) refl)
        (service_publishes late holds) refl

  -- From where the recovery holds its copy: a callback comes in between, and the module hears both.
  overtakes :
      {s t : State p loans} {seen : List (Thread × OperationalStatus)} (late : OperationalStatus)
      (m : Message)
      → Run p loans s seen t
      → t.node.topic ≡ none
      → t.node.service ≡ copied late
      → t.topic ≡ []
      → t.hwm.held ≡ false
      → Run p loans s
          ((service_thread, late) ∷ (topic_thread, (dispatch t.node.node m).1) ∷ seen)
          (overtaken t m late)
  overtakes {t} late m r out holds empty free =
      let o = (dispatch t.node.node m).1 in
      steps
        (steps
          (steps
            (steps
              (steps (steps (publishing late m r out holds) (cycles (lock free) tt)) (
                receives o (late ∷ [])
                  (ap (λ (l : List OperationalStatus). (l ++ (o ∷ [])) ++ (late ∷ [])) empty)
                  (store o refl)))
              (cycles (unlock refl) tt))
            (cycles (lock refl) tt))
          (receives late [] refl (store late refl)))
        (cycles (unlock refl) tt)

holding :
    {p : Publisher} (loans : Loans) (s : State p loans) (late : OperationalStatus) (n : p.Node)
    → Holds p s.node.node late n
    → s.node.service ≡ idle
    → Run p loans s [] (record s { node = record s.node { node = n; service = copied late } })
unfolding publish_operational_status khi_publish
holding loans s _ _ (ur sm rm _) out =
    steps stays (works (service_locks (ur_copies out refl refl)) refl)
holding loans s _ _ (khi _) out =
    steps (steps stays (works (service_locks (clears out refl refl)) refl))
      (works (service_locks (khi_copies refl refl refl)) refl)

accepts_motion :
    (h : Hwm) (o : OperationalStatus)
    → ¬ Forbids o
    → is_ok (enable_motion (on_operational_status h o)) ≡ true
unfolding enable_motion on_operational_status
accepts_motion h o free = elim (Bool-cases (o.state == faulted)) [
  | inl at ↦ absurd (free (inr (ground (arith, at))))
  | inr other ↦ rw other
]

latest-free :
    (h : Hwm) (o : OperationalStatus)
    → ¬ Forbids o
    → ¬ Forbids (on_operational_status h o).latest_operational_status
unfolding on_operational_status
latest-free h o free = free

-- From every quiet state of a robot of Universal Robots or Kawasaki whose module can write: when the status
-- that a recovery leaves for its publication does not forbid motion, and a message to the node reports a
-- fault, a run leads to a quiet state in which the node says that the robot is at fault, while the module
-- enables motion, and writes a command with a position and a velocity for each joint to hardware that
-- refuses no value.
pub late_recovery_moves :
    {p : Publisher} (loans : Loans) {k : ℕ} (s : State p loans) (late : OperationalStatus)
    (n : p.Node) (m : p.Message) (c : Command loans.Double)
    → Holds p s.node.node late n
    → IsQuiet p loans s
    → (p.dispatch n m).1.state ≡ faulted
    → ¬ Forbids late
    → IsSound loans k s.hwm
    → s.hwm.interfaces ≢ []
    → Accepts loans
    → Fits loans s.hwm.hwm c
    → MovesAtFault p loans s c
unfolding on_operational_status
late_recovery_moves {p} loans s late n m c holds quiet fault free sound some_lent law fits =
    let new = on_operational_status s.hwm.hwm (p.dispatch n m).1 in
    let h = on_operational_status new late in
    let (is, went) =
      command_succeeds loans h true c s.hwm.interfaces law
        (status_IsArmed loans new late s.hwm.interfaces
          (status_IsArmed loans s.hwm.hwm (p.dispatch n m).1 s.hwm.interfaces sound.armed))
        (latest-free new late free)
        (record {
          positions = fits.positions;
          velocities = fits.velocities;
          connected = fits.connected;
        })
        some_lent in
    record {
      after = _;
      seen = _;
      run =
          overtakes p loans late m (holding loans s late n holds quiet.service_out) quiet.topic_out
            refl quiet.arrived quiet.unlocked;
      quiet = record { topic_out = refl; service_out = refl; arrived = refl; unlocked = refl };
      at_fault = ap (λ (o : OperationalStatus). o.state) (sym (p.dispatch_status n m)) ∙ fault;
      enables_motion = accepts_motion new late free;
      moved = is;
      succeeded = went;
    }
