-- ===== src/Threads/Khi.antt =====
-- The threads of the Kawasaki node: a reset sets the status in one critical section, and copies it to
-- publish it in another.
use icon_hwm_controller.Prelude.{◌≡◌, refl, arith}
use icon_hwm_controller.OperationalStatus.{OperationalStatus}
use icon_hwm_controller.Threads.{Point, idle, cleared, copied, Publisher}
use icon_hwm_controller.Khi.Status.{all_fine}
use icon_hwm_controller.Khi.Node.{
  Node, start, Callback, error_info_callback, publish_callback, dispatch,
  publish_operational_status,
}

-- The two critical sections at the end of `ClearFaults`.
pub data Serves (p : Point) (n : Node) (q : Point) (n' : Node) : Type 0 where
  clears :
      p ≡ idle → q ≡ cleared → n' ≡ record n { operational_status = all_fine } → Serves p n q n'
  copies :
      p ≡ cleared
      → q ≡ copied (publish_operational_status n).1
      → n' ≡ (publish_operational_status n).0
      → Serves p n q n'

abbrev pub status : Node → OperationalStatus
status n = n.operational_status

pub dispatch_says : (n : Node) (m : Callback) → (dispatch n m).1 ≡ status (dispatch n m).0
unfolding dispatch
dispatch_says n (error_info_callback m) = refl
dispatch_says n publish_callback = refl

pub copy_says :
    {p q : Point} {n n' : Node} (o : OperationalStatus)
    → Serves p n q n'
    → q ≡ copied o
    → (n' ≡ n) × (o ≡ status n)
unfolding publish_operational_status
copy_says o (clears out at same) e = absurd (ground (arith, at, e))
copy_says o (copies out at same) e = (same, ground (arith, at, e))

abbrev pub khi_threads : Publisher
khi_threads = record {
  Node = Node;
  Message = Callback;
  start = start;
  status = status;
  dispatch = dispatch;
  dispatch_status = dispatch_says;
  Serves = Serves;
  serves_copied = copy_says;
}
