-- ===== src/Threads/Fanuc.antt =====
-- The threads of the FANUC node: a recovery has no critical section and publishes nothing.
use icon_hwm_controller.Prelude.{◌≡◌, refl}
use icon_hwm_controller.OperationalStatus.{OperationalStatus}
use icon_hwm_controller.Threads.{Point, Publisher}
use icon_hwm_controller.Threads.Fresh.{OnlyCopies}
use icon_hwm_controller.Fanuc.Status.{ContactStopMode}
use icon_hwm_controller.Fanuc.Node.{
  Node, start, Callback, robot_status_callback, publish_callback, dispatch,
}

-- No critical section.
abbrev pub Serves : Point → Node → Point → Node → Type 0
Serves p n q n' = ⊥

module _ (modes : ContactStopMode) where
  abbrev pub status : Node → OperationalStatus
  status n = n.operational_status

  pub dispatch_says :
      (n : Node) (m : Callback) → (dispatch modes n m).1 ≡ status (dispatch modes n m).0
  unfolding dispatch
  dispatch_says n (robot_status_callback m) = refl
  dispatch_says n publish_callback = refl

  abbrev pub fanuc_threads : Publisher
  fanuc_threads = record {
    Node = Node;
    Message = Callback;
    start = start;
    status = status;
    dispatch = dispatch modes;
    dispatch_status = dispatch_says;
    Serves = Serves;
    serves_copied = λ o s e. absurd s;
  }

  pub fanuc_only_copies : OnlyCopies fanuc_threads
  fanuc_only_copies a b n n' s = absurd s
