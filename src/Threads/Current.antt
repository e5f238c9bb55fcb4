-- ===== src/Threads/Current.antt =====
-- Nothing is published that the node did not say: every message was the node's status at some time.
use icon_hwm_controller.Prelude.{◌≡◌, ◌⊎◌, inl, inr, sym, ◌∙◌, ap, List, [], ◌∷◌, some, arith}
use icon_hwm_controller.OperationalStatus.{OperationalStatus}
use icon_hwm_controller.Threads.{
  copied, Thread, Publisher, System, Step, topic_locks, topic_publishes, service_locks,
  service_publishes, Reach, built, later,
}

module _ (p : Publisher) where
  open p use {status}

  -- The node had this status in one of the states that the system passed through.
  abbrev pub Passed : {t : System p} → Reach p t → OperationalStatus → Type 0
  Passed {t} built o = o ≡ status t.node
  Passed {t} (later r st) o = Passed r o ⊎ (o ≡ status t.node)

  abbrev pub AllPassed : {t : System p} → Reach p t → List (Thread × OperationalStatus) → Type 0
  AllPassed r [] = Unit
  AllPassed r ((by, o) ∷ os) = Passed r o × AllPassed r os

  AllPassed-later :
      {t u : System p} (r : Reach p t) (st : Step p t u) (os : List (Thread × OperationalStatus))
      → AllPassed r os
      → AllPassed (later r st) os
  AllPassed-later r st [] v = tt
  AllPassed-later r st ((by, o) ∷ os) (v, vs) = (inl v, AllPassed-later r st os vs)

  -- What is copied and what was published goes back to the node.
  record IsBacked {t : System p} (r : Reach p t) : Type 0 where
    topic : (o : OperationalStatus) → t.topic ≡ some o → Passed r o
    service : (o : OperationalStatus) → t.service ≡ copied o → Passed r o
    seen : AllPassed r t.seen

  Step-IsBacked :
      {t u : System p} (r : Reach p t) (st : Step p t u) → IsBacked r → IsBacked (later r st)
  Step-IsBacked {t} r (topic_locks m free) v = record {
    topic = λ o e. inr (cc (e, p.dispatch_status t.node m));
    service = λ o e. inl (v.service o e);
    seen = AllPassed-later r (topic_locks m free) t.seen v.seen;
  }
  Step-IsBacked {t} r (topic_publishes o held) v = record {
    topic = λ o' e. absurd (ground (arith, e));
    service = λ o' e. inl (v.service o' e);
    seen = (inl (v.topic o held), AllPassed-later r (topic_publishes o held) t.seen v.seen);
  }
  Step-IsBacked {t} r (service_locks s) v = record {
    topic = λ o e. inl (v.topic o e);
    service = λ o e. let (same, at) = p.serves_copied o s e in inr (at ∙ ap status (sym same));
    seen = AllPassed-later r (service_locks s) t.seen v.seen;
  }
  Step-IsBacked {t} r (service_publishes o held) v = record {
    topic = λ o' e. inl (v.topic o' e);
    service = λ o' e. absurd (ground (arith, e));
    seen = (inl (v.service o held), AllPassed-later r (service_publishes o held) t.seen v.seen);
  }

  Reach-IsBacked : {t : System p} (r : Reach p t) → IsBacked r
  Reach-IsBacked built = record {
    topic = λ o e. absurd (ground (arith, e));
    service = λ o e. absurd (ground (arith, e));
    seen = tt;
  }
  Reach-IsBacked (later r st) = Step-IsBacked r st (Reach-IsBacked r)

  pub seen-AllPassed : {t : System p} (r : Reach p t) → AllPassed r t.seen
  seen-AllPassed r = (Reach-IsBacked r).seen
