-- ===== src/Threads/Fresh.antt =====
-- A node whose service thread only copies: what its subscribers saw last is its status, unless the
-- service thread published it.
use icon_hwm_controller.Prelude.{◌≡◌, sym, ◌∙◌, ap, List, [], ◌∷◌, none, some, arith}
use icon_hwm_controller.OperationalStatus.{OperationalStatus}
use icon_hwm_controller.Threads.{
  Point, Thread, topic_thread, service_thread, Publisher, System, Step, topic_locks,
  topic_publishes, service_locks, service_publishes, Reach, built, later,
}

-- The newest message is this status, if the topic thread published it.
abbrev pub NewestSays : List (Thread × OperationalStatus) → OperationalStatus → Type 0
NewestSays [] now = Unit
NewestSays ((topic_thread, o) ∷ os) now = o ≡ now
NewestSays ((service_thread, o) ∷ os) now = Unit

NewestSays-changed :
    (seen : List (Thread × OperationalStatus)) (now now' : OperationalStatus)
    → now ≡ now'
    → NewestSays seen now
    → NewestSays seen now'
NewestSays-changed [] now now' e v = tt
NewestSays-changed ((topic_thread, o) ∷ os) now now' e v = v ∙ e
NewestSays-changed ((service_thread, o) ∷ os) now now' e v = tt

-- The service thread leaves the node as it is.
abbrev pub OnlyCopies : Publisher → Type 0
OnlyCopies p = (a b : Point) (n n' : p.Node) → p.Serves a n b n' → n' ≡ n

module _ (p : Publisher) (law : OnlyCopies p) where
  open p use {status}

  record IsFresh (s : System p) : Type 0 where
    held : (o : OperationalStatus) → s.topic ≡ some o → o ≡ status s.node
    seen : s.topic ≡ none → NewestSays s.seen (status s.node)

  Step-IsFresh : {s t : System p} → Step p s t → IsFresh s → IsFresh t
  Step-IsFresh {s} (topic_locks m free) v = record {
    held = λ o e. cc (e, p.dispatch_status s.node m);
    seen = λ e. absurd (ground (arith, e));
  }
  Step-IsFresh {s} (topic_publishes o held) v = record {
    held = λ o' e. absurd (ground (arith, e));
    seen = λ e. v.held o held;
  }
  Step-IsFresh {s} (service_locks {q} {n} st) v =
      let same : status s.node ≡ status n = ap status (sym (law s.service q s.node n st)) in
      record {
        held = λ o e. v.held o e ∙ same;
        seen = λ e. NewestSays-changed s.seen (status s.node) (status n) same (v.seen e);
      }
  Step-IsFresh {s} (service_publishes o held) v = record { held = v.held; seen = λ e. tt }

  Reach-IsFresh : {s : System p} → Reach p s → IsFresh s
  Reach-IsFresh built = record { held = λ o e. absurd (ground (arith, e)); seen = λ e. tt }
  Reach-IsFresh (later r st) = Step-IsFresh st (Reach-IsFresh r)

  pub Reach-NewestSays :
      {s : System p} → Reach p s → s.topic ≡ none → NewestSays s.seen (status s.node)
  Reach-NewestSays r out = (Reach-IsFresh r).seen out
