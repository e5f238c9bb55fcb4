-- ===== src/Ur/Node/History.antt =====
-- The node after any history of callbacks: its status is that of the latest messages, and so is
-- each message that it publishes.
use icon_hwm_controller.Prelude.{
  ℕ, zero, suc, ◌<◌, ℤ, ◌≡◌, refl, ap, ◌∙◌, Bool, List, [], ◌∷◌, Option, some, arith, length,
  get_elem?, take,
}
use icon_hwm_controller.Ur.Status.{RobotStatus, SafetyMode, RobotMode, to_operational_status}
use icon_hwm_controller.Ur.Node.{
  Node, start, Callback, robot_mode_callback, safety_mode_callback, program_running_callback,
  publish_callback, update_with, dispatch, run,
}

-- The latest message of each topic, from the values known before.
abbrev pub latest_robot_mode : Option ℤ → List Callback → Option ℤ
latest_robot_mode m [] = m
latest_robot_mode m (robot_mode_callback n ∷ cs) = latest_robot_mode (some n) cs
latest_robot_mode m (_ ∷ cs) = latest_robot_mode m cs

abbrev pub latest_safety_mode : Option ℕ → List Callback → Option ℕ
latest_safety_mode m [] = m
latest_safety_mode m (safety_mode_callback n ∷ cs) = latest_safety_mode (some n) cs
latest_safety_mode m (_ ∷ cs) = latest_safety_mode m cs

abbrev pub latest_program_running : Option Bool → List Callback → Option Bool
latest_program_running m [] = m
latest_program_running m (program_running_callback b ∷ cs) = latest_program_running (some b) cs
latest_program_running m (_ ∷ cs) = latest_program_running m cs

abbrev pub latest : RobotStatus → List Callback → RobotStatus
latest r cs = record {
  robot_mode = latest_robot_mode r.robot_mode cs;
  safety_mode = latest_safety_mode r.safety_mode cs;
  program_running = latest_program_running r.program_running cs;
}

module _ (sm : SafetyMode) (rm : RobotMode) where
  -- The published state is the evaluation of the robot's.
  abbrev pub IsCurrent : Node → Type 0
  IsCurrent n = n.operational_status ≡ to_operational_status sm rm n.robot_status

  pub start-IsCurrent : IsCurrent start
  unfolding start to_operational_status
  start-IsCurrent = refl

  -- One callback.
  dispatch-latest :
      (n : Node) (c : Callback)
      → IsCurrent n
      → (IsCurrent (dispatch sm rm n c).0)
        × ((dispatch sm rm n c).0.robot_status ≡ latest n.robot_status (c ∷ []))
        × ((dispatch sm rm n c).1 ≡ (dispatch sm rm n c).0.operational_status)
  unfolding dispatch update_with
  dispatch-latest n (robot_mode_callback m) v = (refl, refl, refl)
  dispatch-latest n (safety_mode_callback m) v = (refl, refl, refl)
  dispatch-latest n (program_running_callback b) v = (refl, refl, refl)
  dispatch-latest n publish_callback v = (v, refl, refl)

  latest-cons :
      (r : RobotStatus) (c : Callback) (cs : List Callback)
      → latest (latest r (c ∷ [])) cs ≡ latest r (c ∷ cs)
  latest-cons r (robot_mode_callback m) cs = refl
  latest-cons r _ cs = refl

  run_latest :
      (n : Node) (cs : List Callback)
      → IsCurrent n
      → (IsCurrent (run sm rm n cs).0)
        × ((run sm rm n cs).0.robot_status ≡ latest n.robot_status cs)
  unfolding run
  run_latest n [] v = (v, refl)
  run_latest n (c ∷ cs) v =
      let (current, status, sent) = dispatch-latest n c v in
      let (now, rest) = run_latest (dispatch sm rm n c).0 cs current in
      (now, rest ∙ ap (λ (r : RobotStatus). latest r cs) status ∙ latest-cons n.robot_status c cs)

  -- After any history the status is that of the latest message of each topic.
  pub run_status :
      (cs : List Callback)
      → let n = (run sm rm start cs).0 in
        (n.robot_status ≡ latest start.robot_status cs)
        × (n.operational_status ≡ to_operational_status sm rm (latest start.robot_status cs))
  run_status cs =
      let (current, status) = run_latest start cs start-IsCurrent in
      (status, current ∙ ap (to_operational_status sm rm) status)

  published_from :
      (n : Node) (cs : List Callback) (i : ℕ)
      → IsCurrent n
      → i < length cs
      → get_elem? (run sm rm n cs).1 i
        ≡ some (to_operational_status sm rm (latest n.robot_status (take (suc i) cs)))
  unfolding run get_elem?
  published_from n [] i v h = absurd (omega arith)
  published_from n (c ∷ cs) zero v h =
      let (current, status, sent) = dispatch-latest n c v in
      ap some (sent ∙ current ∙ ap (to_operational_status sm rm) status)
  published_from n (c ∷ cs) (suc i) v h =
      let (current, status, sent) = dispatch-latest n c v in
      published_from (dispatch sm rm n c).0 cs i current (omega arith)
      ∙ ap (λ (r : RobotStatus). some (to_operational_status sm rm (latest r (take (suc i) cs))))
          status
      ∙ ap (λ (r : RobotStatus). some (to_operational_status sm rm r))
          (latest-cons n.robot_status c (take (suc i) cs))

  -- In every history of callbacks from the start, callback `i` publishes the evaluation of the latest
  -- message of each topic among the callbacks up to and including it.
  pub run_published :
      (cs : List Callback) (i : ℕ)
      → i < length cs
      → get_elem? (run sm rm start cs).1 i
        ≡ some (to_operational_status sm rm (latest start.robot_status (take (suc i) cs)))
  run_published cs i h = published_from start cs i start-IsCurrent h
