-- ===== src/Threads/Settled.antt =====
-- What is late is mended: the threads can always finish, and the next callback tells the status.
use icon_hwm_controller.Prelude.{◌≡◌, ◌≢◌, refl, ◌∙◌, inl, inr, none, arith, Option-cases}
use icon_hwm_controller.OperationalStatus.{OperationalStatus}
use icon_hwm_controller.Hwm.Params.{Hwm, on_operational_status}
use icon_hwm_controller.Threads.{
  Point, idle, cleared, copied, Publisher, System, Step, topic_locks, topic_publishes,
  service_locks, service_publishes, Reach, built, later, called,
}
use icon_hwm_controller.Threads.Heard.{heard}
use icon_hwm_controller.Threads.Ur.{copies as ur_copies, ur_threads}
use icon_hwm_controller.Threads.Fanuc.{fanuc_threads}
use icon_hwm_controller.Threads.Khi.{copies as khi_copies, khi_threads}
use icon_hwm_controller.Ur.Status.{SafetyMode, RobotMode}
use icon_hwm_controller.Ur.Node.{Callback as UrCallback}
use icon_hwm_controller.Fanuc.Status.{ContactStopMode}
use icon_hwm_controller.Fanuc.Node.{Callback as FanucCallback}
use icon_hwm_controller.Khi.Node.{Callback as KhiCallback, publish_operational_status}

module _ (p : Publisher) where
  open p use {Message, status, dispatch, Serves}

  -- From one state to another, in any number of steps.
  pub data Leads (s : System p) : System p → Type 0 where
    stays : Leads s s
    goes : {t u : System p} → Leads s t → Step p t u → Leads s u

  -- Both threads have finished, the callback `m` has run after them, and a hardware module that has
  -- heard all that was published has the node's status.
  pub record Settles (s : System p) (m : Message) (h : Hwm) : Type 0 where
    pub finished : System p
    pub led : Leads s (called p finished m)
    pub service_out : finished.service ≡ idle
    pub agrees :
        (heard h (called p finished m).seen).latest_operational_status
        ≡ status (called p finished m).node

  -- The service thread can go on from where it has cleared the status.
  abbrev pub GoesOn : System p → Type 0
  GoesOn s =
      s.service ≡ cleared
      → (o : OperationalStatus) × (n : p.Node) × Serves s.service s.node (copied o) n

  service_finishes :
      (s : System p) (q : Point)
      → s.service ≡ q
      → GoesOn s
      → (t : System p) × Leads s t × (t.service ≡ idle)
  service_finishes s idle at onward = (s, stays, at)
  service_finishes s cleared at onward =
      let (o, n, st) = onward at in
      (_, goes (goes stays (service_locks st)) (service_publishes o refl), refl)
  service_finishes s (copied o) at onward = (_, goes stays (service_publishes o at), refl)

  topic_finishes :
      {s : System p} (t : System p)
      → Leads s t
      → (u : System p) × Leads s u × (u.topic ≡ none) × (u.service ≡ t.service)
  topic_finishes t led = elim (Option-cases t.topic) [
    | inl out ↦ (t, led, out, refl)
    | inr (o, held) ↦ (_, goes led (topic_publishes o held), refl, refl)
  ]

  -- Both threads can finish.
  pub threads_finish :
      (s : System p) → GoesOn s → (u : System p) × Leads s u × (u.topic ≡ none) × (u.service ≡ idle)
  threads_finish s onward =
      let (t, led, out) = service_finishes s s.service refl onward in
      let (u, led', free, same) = topic_finishes t led in (u, led', free, same ∙ out)

  settled : (s : System p) (m : Message) (h : Hwm) → GoesOn s → Settles s m h
  unfolding on_operational_status
  settled s m h onward =
      let (u, led, free, out) = threads_finish s onward in
      record {
        finished = u;
        led = goes (goes led (topic_locks m free)) (topic_publishes (dispatch u.node m).1 refl);
        service_out = out;
        agrees = p.dispatch_status u.node m;
      }

  -- A service thread that never clears.
  NeverClears : Type 0
  NeverClears = (a b : Point) (n n' : p.Node) → Serves a n b n' → b ≢ cleared

  Step-uncleared :
      {s t : System p} → NeverClears → Step p s t → s.service ≢ cleared → t.service ≢ cleared
  unfolding NeverClears
  Step-uncleared law (topic_locks m free) v = v
  Step-uncleared law (topic_publishes o held) v = v
  Step-uncleared law (service_locks st) v = law _ _ _ _ st
  Step-uncleared law (service_publishes o held) v = λ e. ground (arith, e)

  Reach-uncleared : {s : System p} → NeverClears → Reach p s → s.service ≢ cleared
  Reach-uncleared law built = λ e. ground (arith, e)
  Reach-uncleared law (later r st) = Step-uncleared law st (Reach-uncleared law r)

ur-NeverClears : (sm : SafetyMode) (rm : RobotMode) → NeverClears (ur_threads sm rm)
unfolding NeverClears
ur-NeverClears sm rm a b n n' (ur_copies out at same) = λ e. ground (arith, at, e)

khi-GoesOn : (s : System khi_threads) → GoesOn khi_threads s
unfolding publish_operational_status
khi-GoesOn s at = (s.node.operational_status, s.node, khi_copies at refl refl)

-- The three vendor nodes.
pub data Vendor : Publisher → Type 1 where
  ur : (sm : SafetyMode) (rm : RobotMode) → Vendor (ur_threads sm rm)
  fanuc : (modes : ContactStopMode) → Vendor (fanuc_threads modes)
  khi : Vendor khi_threads

pub Vendor-GoesOn : {p : Publisher} {s : System p} → Vendor p → Reach p s → GoesOn p s
unfolding NeverClears
Vendor-GoesOn (ur sm rm) r e =
    absurd (Reach-uncleared (ur_threads sm rm) (ur-NeverClears sm rm) r e)
Vendor-GoesOn (fanuc modes) r e =
    absurd (Reach-uncleared (fanuc_threads modes) (λ a b n n' s. absurd s) r e)
Vendor-GoesOn {s} khi r e = khi-GoesOn s e

-- From every state that a vendor node reaches, both threads can finish, and once one further callback
-- has run after them, a hardware module that has heard all that was published has the node's status, also after a
-- late message.
pub threads_settle :
    (sm : SafetyMode) (rm : RobotMode) (modes : ContactStopMode) (h : Hwm)
    {u : System (ur_threads sm rm)} {f : System (fanuc_threads modes)} {k : System khi_threads}
    (a : UrCallback) (b : FanucCallback) (c : KhiCallback)
    → Reach (ur_threads sm rm) u
    → Reach (fanuc_threads modes) f
    → Reach khi_threads k
    → Settles (ur_threads sm rm) u a h
      × Settles (fanuc_threads modes) f b h
      × Settles khi_threads k c h
threads_settle sm rm modes h {u} {f} {k} a b c at_ur at_fanuc at_khi = (
  settled (ur_threads sm rm) u a h (Vendor-GoesOn (ur sm rm) at_ur),
  settled (fanuc_threads modes) f b h (Vendor-GoesOn (fanuc modes) at_fanuc),
  settled khi_threads k c h (Vendor-GoesOn khi at_khi),
)
