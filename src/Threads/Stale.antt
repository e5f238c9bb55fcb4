-- ===== src/Threads/Stale.antt =====
-- How a message of the service thread comes too late: the topic thread runs a whole callback between
-- the copy and the publication.
use icon_hwm_controller.Prelude.{◌≡◌, refl, sym, ◌∷◌, none}
use icon_hwm_controller.OperationalStatus.{OperationalStatus}
use icon_hwm_controller.Threads.{
  idle, copied, topic_thread, service_thread, Publisher, System, service_publishes, Reach, later,
  called, called-Reach,
}

module _ (p : Publisher) where
  open p use {Message, status, dispatch}

  -- Both threads are outside, the node says `new`, and the subscribers saw `new` and then `late`.
  pub record IsLate (s : System p) (new late : OperationalStatus) : Type 0 where
    pub after : System p
    pub reached : Reach p after
    pub topic_out : after.topic ≡ none
    pub service_out : after.service ≡ idle
    pub node_says : status after.node ≡ new
    pub saw : after.seen ≡ (service_thread, late) ∷ (topic_thread, new) ∷ s.seen

  -- The service thread holds a copy, and a callback comes in between.
  pub copied-IsLate :
      (s : System p) (late : OperationalStatus) (m : Message)
      → Reach p s
      → s.topic ≡ none
      → s.service ≡ copied late
      → IsLate s (dispatch s.node m).1 late
  copied-IsLate s late m r out holds = record {
    after = record (called p s m) {
      service = idle;
      seen = (service_thread, late) ∷ (called p s m).seen;
    };
    reached = later (called-Reach p m r out) (service_publishes late holds);
    topic_out = refl;
    service_out = refl;
    node_says = sym (p.dispatch_status s.node m);
    saw = refl;
  }
