-- ===== src/Serving/Khi.antt =====
-- The Kawasaki node as it is built, and the controller that it talks to.
use mathlib.Core.Path.{subst}
use icon_hwm_controller.Prelude.{
  ℕ, ◌≤◌, ℤ, pos, negsuc, ◌≤ℤ◌, ◌≡◌, refl, ap, ◌∙◌, String, List, [], ◌∷◌, Option, some, arith,
  Option-cases, inl, inr,
}
use icon_hwm_controller.Ros.{
  Ros, Built, Process, declare_publish_rate, declare_timeout, timer_period, create_entities,
}
use icon_hwm_controller.Serving.{
  IsRanged, IsTimeout, IsServing, spun, topics, called, declare_timeout-IsTimeout,
}
use icon_hwm_controller.Khi.Node.{Node, start}
use icon_hwm_controller.Khi.Setup.{
  Handler, construct, main_process, built, entities, default_service, default_topic,
  declare_controller_no, error_info_callback, publish_operational_status, clear_faults_callback,
}

abbrev pub publishing : List Handler
publishing = error_info_callback ∷ publish_operational_status ∷ []

abbrev service_timeout_of : Ros → Option ℤ
service_timeout_of ros =
    declare_timeout ros "service_timeout_sec" (pos 5) "Service timeout in seconds."

-- The settings that a node was built from.
record Settings (ros : Ros) (b : Built Node Handler) : Type 0 where
  timeout : ℤ
  timeout_given : service_timeout_of ros ≡ some timeout
  controller_no : ℤ
  controller_no_given : declare_controller_no ros ≡ some controller_no
  reset_service : String
  service_given :
      ros.declare_string "reset_error_service" (default_service controller_no) ≡ some reset_service
  error_topic : String
  topic_given :
      ros.declare_string "error_info_topic" (default_topic controller_no) ≡ some error_topic
  period : ℤ
  same : built timeout (entities period error_topic reset_service) ≡ b

construct-Settings : (ros : Ros) {b : Built Node Handler} → construct ros ≡ some b → Settings ros b
unfolding construct built create_entities
construct-Settings ros e = elim (Option-cases (declare_publish_rate ros)) [
  | inl thrown ↦ absurd (ground (arith, thrown, e))
  | inr (rate, r) ↦ elim (Option-cases (service_timeout_of ros)) [
    | inl thrown ↦ absurd (ground (arith, thrown, r, e))
    | inr (t, g) ↦ elim (Option-cases (declare_controller_no ros)) [
      | inl thrown ↦ absurd (ground (arith, thrown, r, g, e))
      | inr (c, g1) ↦
          elim (Option-cases (ros.declare_string "reset_error_service" (default_service c))) [
            | inl thrown ↦ absurd (ground (arith, thrown, r, g, g1, e))
            | inr (s, g2) ↦
                elim (Option-cases (ros.declare_string "error_info_topic" (default_topic c))) [
                  | inl thrown ↦ absurd (ground (arith, thrown, r, g, g1, g2, e))
                  | inr (w, g3) ↦ record {
                    timeout = t;
                    timeout_given = g;
                    controller_no = c;
                    controller_no_given = g1;
                    reset_service = s;
                    service_given = g2;
                    error_topic = w;
                    topic_given = g3;
                    period = timer_period ros rate;
                    same = ground (arith, r, g, g1, g2, g3, e);
                  }
                ]
          ]
    ]
  ]
]

built-IsServing :
    (timeout period : ℤ) (topic service : String)
    → IsTimeout timeout
    → IsServing start publishing clear_faults_callback
        (spun (built timeout (entities period topic service)))
unfolding built entities
built-IsServing timeout period topic service t = record {
  starts = refl;
  publishing_handlers = refl;
  publishing_in_turn = refl;
  serving_handler = refl;
  serving_in_turn = refl;
  no_other_handler = refl;
  answered = refl;
  groups_created = refl;
  service_timeout = t;
}

construct-IsServing :
    (ros : Ros) {b : Built Node Handler}
    → IsRanged ros
    → construct ros ≡ some b
    → IsServing start publishing clear_faults_callback (spun b)
construct-IsServing ros ranged e =
    let v = construct-Settings ros e in
    subst (λ (b : Built Node Handler). IsServing start publishing clear_faults_callback (spun b))
      v.same
      (built-IsServing v.timeout v.period v.error_topic v.reset_service
        (declare_timeout-IsTimeout ros _ _ _ v.timeout ranged v.timeout_given))

pub main_process-IsServing :
    (ros : Ros) {p : Process Node Handler}
    → IsRanged ros
    → main_process ros ≡ some p
    → IsServing start publishing clear_faults_callback p
unfolding main_process
main_process-IsServing ros {p} ranged e = elim (Option-cases (construct ros)) [
  | inl thrown ↦ absurd (ground (arith, thrown, e))
  | inr (b, left) ↦
      let same : spun b ≡ p = ground (arith, left, e) in
      subst (IsServing start publishing clear_faults_callback) same
        (construct-IsServing ros ranged left)
]

-- The node listens to one controller and resets the errors of the same one.
abbrev pub TalksTo : ℕ → Built Node Handler → Type 0
TalksTo n b =
    (topics b.entities ≡ default_topic (pos n) ∷ [])
    × (called b.entities ≡ default_service (pos n) ∷ [])

number-within : (c : ℤ) → pos 0 ≤ℤ c → c ≤ℤ pos 15 → (n : ℕ) × (c ≡ pos n) × (n ≤ 15)
number-within (pos n) low high = (n, refl, omega (arith, high))
number-within (negsuc n) low high = absurd (omega (arith, low))

built-names :
    (timeout period : ℤ) (topic service : String)
    → (topics (built timeout (entities period topic service)).entities ≡ topic ∷ [])
      × (called (built timeout (entities period topic service)).entities ≡ service ∷ [])
unfolding built entities
built-names timeout period topic service = (refl, refl)

-- When the user gives no names of his own and rclcpp keeps an integer parameter in its range, the node
-- listens to the error reports of one controller with a number up to 15, and calls the reset service of
-- that same controller.
pub one_controller :
    (ros : Ros) {b : Built Node Handler}
    → IsRanged ros
    → ((name default_value : String) → ros.declare_string name default_value ≡ some default_value)
    → construct ros ≡ some b
    → (n : ℕ) × (n ≤ 15) × TalksTo n b
unfolding declare_controller_no
one_controller ros ranged no_names e =
    let v = construct-Settings ros e in
    let (low, high) = ranged "controller_no" (pos 0) _ v.controller_no v.controller_no_given in
    let (n, at, small) = number-within v.controller_no low high in
    let (listens, calls) = built-names v.timeout v.period v.error_topic v.reset_service in
    let topic : v.error_topic ≡ default_topic (pos n) =
      cc (no_names "error_info_topic" (default_topic v.controller_no), v.topic_given, at) in
    let service : v.reset_service ≡ default_service (pos n) =
      cc (no_names "reset_error_service" (default_service v.controller_no), v.service_given, at) in
    (
      n,
      small,
      subst (TalksTo n) v.same (
        listens ∙ ap (λ (w : String). w ∷ []) topic,
        calls ∙ ap (λ (w : String). w ∷ []) service,
      ),
    )
