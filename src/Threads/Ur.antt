-- ===== src/Threads/Ur.antt =====
-- The threads of the Universal Robots node: a recovery publishes the status, and does not change it.
use icon_hwm_controller.Prelude.{◌≡◌, refl, arith}
use icon_hwm_controller.OperationalStatus.{OperationalStatus}
use icon_hwm_controller.Threads.{Point, idle, copied, Publisher}
use icon_hwm_controller.Threads.Fresh.{OnlyCopies}
use icon_hwm_controller.Ur.Status.{SafetyMode, RobotMode}
use icon_hwm_controller.Ur.Node.{
  Node, start, Callback, robot_mode_callback, safety_mode_callback, program_running_callback,
  publish_callback, dispatch, publish_operational_status,
}

module _ (sm : SafetyMode) (rm : RobotMode) where
  -- The critical section of `PublishOperationalStatus`, which `ClearFaults` calls at its end.
  -- The one in which it reads the safety mode at its start changes nothing.
  pub data Serves (p : Point) (n : Node) (q : Point) (n' : Node) : Type 0 where
    copies :
        p ≡ idle
        → q ≡ copied (publish_operational_status sm rm n).1
        → n' ≡ (publish_operational_status sm rm n).0
        → Serves p n q n'

  abbrev pub status : Node → OperationalStatus
  status n = n.operational_status

  pub dispatch_says :
      (n : Node) (m : Callback) → (dispatch sm rm n m).1 ≡ status (dispatch sm rm n m).0
  unfolding dispatch
  dispatch_says n (robot_mode_callback m) = refl
  dispatch_says n (safety_mode_callback m) = refl
  dispatch_says n (program_running_callback b) = refl
  dispatch_says n publish_callback = refl

  pub copy_says :
      {p q : Point} {n n' : Node} (o : OperationalStatus)
      → Serves p n q n'
      → q ≡ copied o
      → (n' ≡ n) × (o ≡ status n)
  unfolding publish_operational_status
  copy_says o (copies out at same) e = (same, ground (arith, at, e))

  abbrev pub ur_threads : Publisher
  ur_threads = record {
    Node = Node;
    Message = Callback;
    start = start;
    status = status;
    dispatch = dispatch sm rm;
    dispatch_status = dispatch_says;
    Serves = Serves;
    serves_copied = copy_says;
  }

  pub ur_only_copies : OnlyCopies ur_threads
  unfolding publish_operational_status
  ur_only_copies a b n n' (copies out at same) = same
