-- ===== src/Plant/Settles.antt =====
-- What the node reports gets through to the hardware module.
use mathlib.Core.Path.{subst}
use icon_hwm_controller.Prelude.{
  ◌≡◌, refl, sym, ap, ◌∙◌, inl, inr, false, List, [], ◌∷◌, none, Bool-cases,
}
use icon_hwm_controller.OperationalStatus.{OperationalStatus}
use icon_hwm_controller.Hwm.Interfaces.{Loans}
use icon_hwm_controller.Threads.{
  idle, Thread, topic_thread, service_thread, Publisher, System, Step as Works, topic_locks,
  topic_publishes, service_locks, service_publishes, called, Reach,
}
use icon_hwm_controller.Threads.Settled.{
  Leads, stays as led, goes, GoesOn, threads_finish, Vendor, Vendor-GoesOn,
}
use icon_hwm_controller.Hwm.Params.{on_operational_status}
use icon_hwm_controller.Cycle.{System as Module, lock, store, unlock}
use icon_hwm_controller.Plant.{State, receives, works, cycles, Run, stays, steps, publishes}
use icon_hwm_controller.Plant.Newest.{drained-told, Run-told}

module _ (p : Publisher) (loans : Loans) where
  open p use {Message, status, dispatch}

  -- A run to a state with this node.
  record RunsTo (s : State p loans) (n : System p) : Type 0 where
    after : State p loans
    seen : List (Thread × OperationalStatus)
    run : Run p loans s seen after
    node : after.node ≡ n
    hwm : after.hwm ≡ s.hwm

  -- The node takes a step, and what it publishes is on its way.
  works_on :
      {s t : State p loans} {seen : List (Thread × OperationalStatus)} {n : System p}
      → Run p loans s seen t
      → t.hwm ≡ s.hwm
      → Works p t.node n
      → RunsTo s n
  works_on r kept (topic_locks m free) = record {
    after = _;
    seen = _;
    run = steps r (works (topic_locks m free) refl);
    node = refl;
    hwm = kept;
  }
  works_on r kept (topic_publishes o held) = record {
    after = _;
    seen = _;
    run = publishes topic_thread o r (topic_publishes o held) refl;
    node = refl;
    hwm = kept;
  }
  works_on r kept (service_locks st) = record {
    after = _;
    seen = _;
    run = steps r (works (service_locks st) refl);
    node = refl;
    hwm = kept;
  }
  works_on r kept (service_publishes o held) = record {
    after = _;
    seen = _;
    run = publishes service_thread o r (service_publishes o held) refl;
    node = refl;
    hwm = kept;
  }

  Leads-RunsTo : (s : State p loans) {n : System p} → Leads p s.node n → RunsTo s n
  Leads-RunsTo s led = record { after = s; seen = []; run = stays; node = refl; hwm = refl }
  Leads-RunsTo s {n} (goes l st) =
      let v = Leads-RunsTo s l in
      works_on v.run v.hwm (subst (λ (m : System p). Works p m n) (sym v.node) st)

  -- The parameters and the command interfaces are the same.
  abbrev pub SameModule : Module loans → Module loans → Type 0
  SameModule m m' = (m'.hwm.params ≡ m.hwm.params) × (m'.interfaces ≡ m.interfaces)

  -- Nothing is on its way, and the lock of the status is free; the module is the one of the state `u`.
  abbrev Drained : State p loans → List (Thread × OperationalStatus) → State p loans → Type 0
  Drained s seen u =
      (t : State p loans) × Run p loans s seen t
      × (t.node ≡ u.node)
      × (t.topic ≡ [])
      × (t.hwm.held ≡ false)
      × SameModule u.hwm t.hwm

  drains :
      {s : State p loans} {seen : List (Thread × OperationalStatus)} (l : List OperationalStatus)
      {t : State p loans}
      → Run p loans s seen t
      → t.topic ≡ l
      → t.hwm.held ≡ false
      → Drained s seen t
  unfolding on_operational_status
  drains [] {t} r e free = (t, r, refl, e, free, (refl, refl))
  drains (o ∷ l) r e free =
      drains l
        (steps (steps (steps r (cycles (lock free) tt)) (receives o l e (store o refl)))
          (cycles (unlock refl) tt))
        refl refl

  unlocks :
      {s t : State p loans} {seen : List (Thread × OperationalStatus)}
      → Run p loans s seen t
      → Drained s seen t
  unlocks {t} r = elim (Bool-cases t.hwm.held) [
    | inl mine ↦ drains t.topic (steps r (cycles (unlock mine) tt)) refl refl
    | inr free ↦ drains t.topic r refl free
  ]

  -- A run in which both threads finish and the node takes the message `m`, and after which both threads
  -- are outside, all messages have come in, the lock of the status is free, and the module has the
  -- node's status.
  pub record Settles (s : State p loans) (m : Message) : Type 0 where
    pub before : System p
    pub finished : Leads p s.node before
    pub after : State p loans
    pub seen : List (Thread × OperationalStatus)
    pub run : Run p loans s seen after
    pub node : after.node.node ≡ (dispatch before.node m).0
    pub topic_out : after.node.topic ≡ none
    pub service_out : after.node.service ≡ idle
    pub arrived : after.topic ≡ []
    pub unlocked : after.hwm.held ≡ false
    pub kept : SameModule s.hwm after.hwm
    pub agrees : after.hwm.hwm.latest_operational_status ≡ status after.node.node

  settles : (s : State p loans) (m : Message) → GoesOn p s.node → Settles s m
  settles s m onward =
      let (u, l, out, idles) = threads_finish p s.node onward in
      let v = Leads-RunsTo s l in
      let free : v.after.node.topic ≡ none = ap (λ (n : System p). n.topic) v.node ∙ out in
      let asked = steps v.run (works (topic_locks m free) refl) in
      let (t, r, same, empty, unlocked, (params, interfaces)) = unlocks (
        publishes topic_thread (dispatch v.after.node.node m).1 asked (topic_publishes _ refl)
          refl) in
      let node = same ∙ ap (λ (n : System p). called p n m) v.node in
      let told_status =
        sym (drained-told p loans t empty)
        ∙ Run-told p loans r
        ∙ p.dispatch_status v.after.node.node m
        ∙ ap (λ (n : System p). status n.node) (sym same) in
      record {
        before = u;
        finished = l;
        after = t;
        seen = _;
        run = r;
        node = ap (λ (n : System p). n.node) node;
        topic_out = ap (λ (n : System p). n.topic) same;
        service_out = ap (λ (n : System p). n.service) node ∙ idles;
        arrived = empty;
        unlocked = unlocked;
        kept = (
          params ∙ ap (λ (m : Module loans). m.hwm.params) v.hwm,
          interfaces ∙ ap (λ (m : Module loans). m.interfaces) v.hwm,
        );
        agrees = told_status;
      }

-- From every state of a robot whose vendor node has been reached by its steps, and for every further
-- message to the node, a run leads to a state in which the node has taken that message, both threads have
-- finished, nothing is on its way and the lock of the status is free: the hardware module then has the
-- node's status.
pub plant_settles :
    {p : Publisher} (vendor : Vendor p) (loans : Loans) (s : State p loans) (m : p.Message)
    → Reach p s.node
    → Settles p loans s m
plant_settles {p} vendor loans s m r = settles p loans s m (Vendor-GoesOn vendor r)
