-- ===== src/Ur/Node/Topics.antt =====
-- A history of the node up to what its state depends on is the messages of each topic.
use icon_hwm_controller.Prelude.{ℕ, ℤ, ◌≡◌, refl, ap, ◌∙◌, Bool, List, [], ◌∷◌, ◌++◌, map, none}
use mathlib.Core.Equiv.{Iso, IsEquiv, iso_to_equiv}
use mathlib.Core.Quot
use mathlib.Core.Quot.{Quot, Quot-set}
use native.Mathlib.Nat.{ℕ_set}
use icon_hwm_controller.Ur.Status.{RobotStatus, SafetyMode, RobotMode}
use icon_hwm_controller.Ur.Node.{
  Node, start, Callback, robot_mode_callback, safety_mode_callback, program_running_callback, run,
}
use icon_hwm_controller.Ur.Node.History.{latest}
use icon_hwm_controller.Ur.Node.Interleaving.{
  robot_modes, safety_modes, programs_running, SameTopics, last_of, node_of, run-node_of,
  latest-robot_modes, latest-safety_modes, latest-programs_running,
}

-- The messages of the three topics.
abbrev pub Topics : Type 0
Topics = List ℤ × List ℕ × List Bool

abbrev topics_of : List Callback → Topics
topics_of cs = (robot_modes cs, safety_modes cs, programs_running cs)

-- Histories in which each topic has the same messages in the same order are one.
abbrev pub History : Type 0
History = Quot SameTopics

pub Topics-set : IsSet Topics
Topics-set = hlevel ℕ_set

pub topics_of-SameTopics : (cs ds : List Callback) → SameTopics cs ds → topics_of cs ≡ topics_of ds
topics_of-SameTopics cs ds (modes, safety, running) = cc (modes, safety, running)

abbrev pub topics : History → Topics
topics = Quot.lift Topics-set topics_of topics_of-SameTopics

-- One topic after the other.
abbrev in_turn : Topics → List Callback
in_turn (modes, safety, running) =
    map robot_mode_callback modes
    ++ map safety_mode_callback safety
    ++ map program_running_callback running

topics_of-in_turn : (t : Topics) → topics_of (in_turn t) ≡ t
topics_of-in_turn (m ∷ modes, safety, running) =
    ap (λ (t : Topics). (m ∷ t.0, t.1, t.2)) (topics_of-in_turn (modes, safety, running))
topics_of-in_turn ([], s ∷ safety, running) =
    ap (λ (t : Topics). (t.0, s ∷ t.1, t.2)) (topics_of-in_turn ([], safety, running))
topics_of-in_turn ([], [], r ∷ running) =
    ap (λ (t : Topics). (t.0, t.1, r ∷ t.2)) (topics_of-in_turn ([], [], running))
topics_of-in_turn ([], [], []) = refl

in_turn-History :
    (cs : List Callback) → ◌≡◌ {A = History} (Quot.mk (in_turn (topics_of cs))) (Quot.mk cs)
in_turn-History cs =
    let same = topics_of-in_turn (topics_of cs) in
    Quot.sound (ap (λ t. t.0) same, ap (λ t. t.1) same, ap (λ t. t.2) same)

histories_iso : Iso History Topics
histories_iso = record {
  fun = topics;
  inv = λ t. Quot.mk (in_turn t);
  rinv = topics_of-in_turn;
  linv = Quot.ind (λ h. Quot-set _ _) in_turn-History;
}

latest-topics_of :
    (r : RobotStatus) (cs : List Callback)
    → latest r cs ≡ record {
      robot_mode = last_of r.robot_mode (robot_modes cs);
      safety_mode = last_of r.safety_mode (safety_modes cs);
      program_running = last_of r.program_running (programs_running cs);
    }
latest-topics_of r cs = cc (
  latest-robot_modes r.robot_mode cs,
  latest-safety_modes r.safety_mode cs,
  latest-programs_running r.program_running cs,
)

module _ (sm : SafetyMode) (rm : RobotMode) where
  -- The state by the last message of each topic.
  abbrev pub settled : Topics → Node
  settled (modes, safety, running) = node_of sm rm (record {
    robot_mode = last_of none modes;
    safety_mode = last_of none safety;
    program_running = last_of none running;
  })

  -- Histories in which each topic has the same messages in the same order are exactly the messages of
  -- the three topics, and the state after a history from the start is the status of the last message of
  -- each topic.
  pub histories_are_topics :
      IsEquiv topics
      × ((cs : List Callback) → (run sm rm start cs).0 ≡ settled (topics (Quot.mk cs)))
  unfolding histories_iso start
  histories_are_topics = (
    (iso_to_equiv histories_iso).1,
    λ cs. run-node_of sm rm cs ∙ ap (node_of sm rm) (latest-topics_of start.robot_status cs),
  )
