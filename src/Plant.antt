-- ===== src/Plant.antt =====
-- A robot at work: the vendor node with its two threads, the status topic, and the hardware module that
-- subscribes to it.
pub mod Newest
pub mod Stops
pub mod Late
pub mod Settles
pub mod Verdict
use icon_hwm_controller.Prelude.{◌≡◌, List, [], ◌∷◌, ◌++◌}
use icon_hwm_controller.OperationalStatus.{OperationalStatus}
use icon_hwm_controller.Hwm.Interfaces.{Loans}
use icon_hwm_controller.Threads.{Thread, Publisher, System, Step as Works}
use icon_hwm_controller.Cycle.{System as Module, Label, stored, commanded, internal, Step as Cycles}

-- `topic` holds the messages on their way to the module, the oldest first.
pub record State (p : Publisher) (loans : Loans) : Type 0 where
  pub node : System p
  pub topic : List OperationalStatus
  pub hwm : Module loans

-- A step of the module that takes no message.
abbrev pub IsUnread : Label → Type 0
IsUnread (stored msg) = ⊥
IsUnread _ = Unit

module _ (p : Publisher) (loans : Loans) where
  -- The steps without a publication. Messages arrive in their order, and a queue that is full gives the
  -- oldest up: the newest message is never lost.
  pub data Step (s : State p loans) : State p loans → Type 0 where
    works :
        {n : System p} → Works p s.node n → n.seen ≡ s.node.seen → Step s (record s { node = n })
    loses :
        (o q : OperationalStatus) (rest : List OperationalStatus)
        → s.topic ≡ o ∷ q ∷ rest
        → Step s (record s { topic = q ∷ rest })
    receives :
        (o : OperationalStatus) (rest : List OperationalStatus) {m : Module loans}
        → s.topic ≡ o ∷ rest
        → Cycles loans s.hwm (stored o) m
        → Step s (record s { topic = rest; hwm = m })
    cycles :
        {l : Label} {m : Module loans}
        → Cycles loans s.hwm l m
        → IsUnread l
        → Step s (record s { hwm = m })

  -- A run with what was published in it, the newest first.
  pub data Run (s : State p loans)
      : List (Thread × OperationalStatus) → State p loans → Type 0 where
    stays : Run s [] s
    steps :
        {t u : State p loans} {seen : List (Thread × OperationalStatus)}
        → Run s seen t
        → Step t u
        → Run s seen u
    publishes :
        {t : State p loans} {seen : List (Thread × OperationalStatus)} {n : System p} (by : Thread)
        (o : OperationalStatus)
        → Run s seen t
        → Works p t.node n
        → n.seen ≡ (by, o) ∷ t.node.seen
        → Run s ((by, o) ∷ seen) (record t { node = n; topic = t.topic ++ (o ∷ []) })
