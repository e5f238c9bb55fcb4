-- ===== src/Threads.antt =====
-- A vendor node with its two threads: the callbacks of the topics and the timer, which run in turn, and
-- the call of the `clear_faults` service. Each takes the mutex for its critical section and publishes
-- after it has given the mutex back, so that the other may come in between.
pub mod Current
pub mod Fresh
pub mod Stale
pub mod Ur
pub mod Fanuc
pub mod Khi
pub mod Vendors
pub mod Heard
pub mod Settled
use icon_hwm_controller.Prelude.{◌≡◌, refl, ◌≢◌, ◌⊎◌, List, [], ◌∷◌, Option, none, some}
use icon_hwm_controller.OperationalStatus.{OperationalStatus}

-- Where the service thread is: outside, with the status cleared but not yet published, or with a copy of
-- the status that it is about to publish.
pub data Point : Type 0 where
  idle : Point
  cleared : Point
  copied : OperationalStatus → Point

pub data Thread : Type 0 where
  topic_thread service_thread : Thread

-- What the threads of a node do while they hold the mutex. `dispatch` is a callback; `Serves` relates
-- the service thread and the node before and after one of its critical sections.
pub record Publisher : Type 1 where
  pub Node : Type 0
  pub Message : Type 0
  pub start : Node
  pub status : Node → OperationalStatus
  pub dispatch : Node → Message → Node × OperationalStatus
  pub dispatch_status : (n : Node) (m : Message) → (dispatch n m).1 ≡ status (dispatch n m).0
  pub Serves : Point → Node → Point → Node → Type 0
  pub serves_copied :
      {p q : Point} {n n' : Node} (o : OperationalStatus)
      → Serves p n q n'
      → q ≡ copied o
      → (n' ≡ n) × (o ≡ status n)

-- `topic` is what the topic thread has copied and not yet published; `seen` is what was published, by
-- which thread, the newest first.
pub record System (p : Publisher) : Type 0 where
  pub node : p.Node
  pub topic : Option OperationalStatus
  pub service : Point
  pub seen : List (Thread × OperationalStatus)

module _ (p : Publisher) where
  open p use {Message, status, dispatch, Serves}

  -- `topic_locks` and `service_locks` are critical sections.
  pub data Step (s : System p) : System p → Type 0 where
    topic_locks :
        (m : Message)
        → s.topic ≡ none
        → Step s (record s { node = (dispatch s.node m).0; topic = some (dispatch s.node m).1 })
    topic_publishes :
        (o : OperationalStatus)
        → s.topic ≡ some o
        → Step s (record s { topic = none; seen = (topic_thread, o) ∷ s.seen })
    service_locks :
        {q : Point} {n : p.Node}
        → Serves s.service s.node q n
        → Step s (record s { node = n; service = q })
    service_publishes :
        (o : OperationalStatus)
        → s.service ≡ copied o
        → Step s (record s { service = idle; seen = (service_thread, o) ∷ s.seen })

  abbrev pub initial : System p
  initial = record { node = p.start; topic = none; service = idle; seen = [] }

  pub data Reach : System p → Type 0 where
    built : Reach initial
    later : {s t : System p} → Reach s → Step s t → Reach t

  -- A whole callback.
  abbrev pub called : System p → Message → System p
  called s m = record s {
    node = (dispatch s.node m).0;
    topic = none;
    seen = (topic_thread, (dispatch s.node m).1) ∷ s.seen;
  }

  pub called-Reach : {s : System p} (m : Message) → Reach s → s.topic ≡ none → Reach (called s m)
  called-Reach {s} m r out =
      later (later r (topic_locks m out)) (topic_publishes (dispatch s.node m).1 refl)
