-- ===== src/Ur/Node/Interleaving.antt =====
-- The three topics of the node are independent: how their messages interleave leaves no trace in its
-- state.
use icon_hwm_controller.Prelude.{ℕ, ℤ, ◌≡◌, refl, sym, ap, ◌∙◌, Bool, List, [], ◌∷◌, Option, some}
use icon_hwm_controller.OperationalStatus.{OperationalStatus}
use icon_hwm_controller.Ur.Status.{RobotStatus, SafetyMode, RobotMode, to_operational_status}
use icon_hwm_controller.Ur.Node.{
  Node, start, Callback, robot_mode_callback, safety_mode_callback, program_running_callback, run,
}
use icon_hwm_controller.Ur.Node.History.{
  latest, latest_robot_mode, latest_safety_mode, latest_program_running, run_status,
}

-- The messages of each topic in a history, in their order.
abbrev pub robot_modes : List Callback → List ℤ
robot_modes [] = []
robot_modes (robot_mode_callback m ∷ cs) = m ∷ robot_modes cs
robot_modes (_ ∷ cs) = robot_modes cs

abbrev pub safety_modes : List Callback → List ℕ
safety_modes [] = []
safety_modes (safety_mode_callback m ∷ cs) = m ∷ safety_modes cs
safety_modes (_ ∷ cs) = safety_modes cs

abbrev pub programs_running : List Callback → List Bool
programs_running [] = []
programs_running (program_running_callback b ∷ cs) = b ∷ programs_running cs
programs_running (_ ∷ cs) = programs_running cs

-- The last element, or what was there before.
abbrev pub last_of : {A : Type 0} → Option A → List A → Option A
last_of m [] = m
last_of m (a ∷ rest) = last_of (some a) rest

pub latest-robot_modes :
    (m : Option ℤ) (cs : List Callback) → latest_robot_mode m cs ≡ last_of m (robot_modes cs)
latest-robot_modes m [] = refl
latest-robot_modes m (robot_mode_callback n ∷ cs) = latest-robot_modes (some n) cs
latest-robot_modes m (_ ∷ cs) = latest-robot_modes m cs

pub latest-safety_modes :
    (m : Option ℕ) (cs : List Callback) → latest_safety_mode m cs ≡ last_of m (safety_modes cs)
latest-safety_modes m [] = refl
latest-safety_modes m (safety_mode_callback n ∷ cs) = latest-safety_modes (some n) cs
latest-safety_modes m (_ ∷ cs) = latest-safety_modes m cs

pub latest-programs_running :
    (m : Option Bool) (cs : List Callback)
    → latest_program_running m cs ≡ last_of m (programs_running cs)
latest-programs_running m [] = refl
latest-programs_running m (program_running_callback b ∷ cs) = latest-programs_running (some b) cs
latest-programs_running m (_ ∷ cs) = latest-programs_running m cs

-- Two histories in which each topic has the same messages in the same order.
abbrev pub SameTopics : List Callback → List Callback → Type 0
SameTopics cs ds =
    (robot_modes cs ≡ robot_modes ds)
    × (safety_modes cs ≡ safety_modes ds)
    × (programs_running cs ≡ programs_running ds)

status_of : Option ℤ → Option ℕ → Option Bool → RobotStatus
status_of m s b = record { robot_mode = m; safety_mode = s; program_running = b }

status_of-eq :
    {m m' : Option ℤ} {s s' : Option ℕ} {b b' : Option Bool}
    → m ≡ m'
    → s ≡ s'
    → b ≡ b'
    → status_of m s b ≡ status_of m' s' b'
status_of-eq e f g = cc (e, f, g)

latest-SameTopics :
    (r : RobotStatus) (cs ds : List Callback) → SameTopics cs ds → latest r cs ≡ latest r ds
unfolding status_of
latest-SameTopics r cs ds (modes, safety, running) =
    let robot =
      latest-robot_modes r.robot_mode cs
      ∙ ap (last_of r.robot_mode) modes
      ∙ sym (latest-robot_modes r.robot_mode ds) in
    let safe =
      latest-safety_modes r.safety_mode cs
      ∙ ap (last_of r.safety_mode) safety
      ∙ sym (latest-safety_modes r.safety_mode ds) in
    let program =
      latest-programs_running r.program_running cs
      ∙ ap (last_of r.program_running) running
      ∙ sym (latest-programs_running r.program_running ds) in
    status_of-eq robot safe program

told : RobotStatus → OperationalStatus → Node
told r o = record { robot_status = r; operational_status = o }

node-eq :
    {n : Node} {r : RobotStatus} {o : OperationalStatus}
    → n.robot_status ≡ r
    → n.operational_status ≡ o
    → n ≡ record { robot_status = r; operational_status = o }
unfolding told
node-eq {n} {r} {o} e f = ap (λ (q : RobotStatus). told q n.operational_status) e ∙ ap (told r) f

module _ (sm : SafetyMode) (rm : RobotMode) where
  -- The state after a history, by the status that the history tells.
  abbrev pub node_of : RobotStatus → Node
  node_of r = record { robot_status = r; operational_status = to_operational_status sm rm r }

  pub run-node_of :
      (cs : List Callback) → (run sm rm start cs).0 ≡ node_of (latest start.robot_status cs)
  run-node_of cs = let (robot, status) = run_status sm rm cs in node-eq robot status

  -- From the start, two histories in which each of the three topics has the same messages in the same
  -- order lead to the same state, however the topics interleave and whenever the timer fires.
  pub interleavings_agree :
      (cs ds : List Callback) → SameTopics cs ds → (run sm rm start cs).0 ≡ (run sm rm start ds).0
  interleavings_agree cs ds same =
      run-node_of cs
      ∙ ap node_of (latest-SameTopics start.robot_status cs ds same)
      ∙ sym (run-node_of ds)
