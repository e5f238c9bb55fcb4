-- ===== src/Serving/Ur.antt =====
-- The Universal Robots node as it is built.
use mathlib.Core.Path.{subst}
use icon_hwm_controller.Prelude.{
  ℤ, pos, ◌≡◌, refl, List, [], ◌∷◌, Option, some, arith, Option-cases, inl, inr,
}
use icon_hwm_controller.Ros.{
  Ros, Built, Process, declare_publish_rate, declare_timeout, timer_period, create_entities,
}
use icon_hwm_controller.Serving.{IsRanged, IsTimeout, IsServing, spun, declare_timeout-IsTimeout}
use icon_hwm_controller.Ur.Node.{Node, start}
use icon_hwm_controller.Ur.Setup.{
  Handler, construct, main_process, built, entities, robot_mode_callback, safety_mode_callback,
  program_running_callback, publish_operational_status, clear_faults_callback,
}

-- The handlers that publish.
abbrev pub publishing : List Handler
publishing =
    robot_mode_callback ∷ safety_mode_callback ∷ program_running_callback
    ∷ publish_operational_status ∷ []

abbrev service_timeout_of : Ros → Option ℤ
service_timeout_of ros =
    declare_timeout ros "service_timeout_sec" (pos 5) "Service timeout in seconds."

abbrev action_timeout_of : Ros → Option ℤ
action_timeout_of ros =
    declare_timeout ros "action_timeout_sec" (pos 15) "Action timeout in seconds."

construct-built :
    (ros : Ros) {b : Built Node Handler}
    → construct ros ≡ some b
    → (service action period : ℤ) × (service_timeout_of ros ≡ some service)
      × (action_timeout_of ros ≡ some action)
      × (built service action (entities period) ≡ b)
unfolding construct built create_entities
construct-built ros e = elim (Option-cases (declare_publish_rate ros)) [
  | inl thrown ↦ absurd (ground (arith, thrown, e))
  | inr (rate, declared) ↦ elim (Option-cases (service_timeout_of ros)) [
    | inl thrown ↦ absurd (ground (arith, thrown, declared, e))
    | inr (service, given) ↦ elim (Option-cases (action_timeout_of ros)) [
      | inl thrown ↦ absurd (ground (arith, thrown, given, declared, e))
      | inr (action, given') ↦ (
        service,
        action,
        timer_period ros rate,
        given,
        given',
        ground (arith, declared, given, given', e),
      )
    ]
  ]
]

-- A serving node whose action timeout is one to 300 seconds too.
abbrev pub IsUrServing : Process Node Handler → Type 0
IsUrServing p =
    IsServing start publishing clear_faults_callback p
    × (t : ℤ) × (p.node.action_timeout ≡ some t)
    × IsTimeout t

built-IsUrServing :
    (service action period : ℤ)
    → IsTimeout service
    → IsTimeout action
    → IsUrServing (spun (built service action (entities period)))
unfolding built entities
built-IsUrServing service action period t t' = (
  record {
    starts = refl;
    publishing_handlers = refl;
    publishing_in_turn = refl;
    serving_handler = refl;
    serving_in_turn = refl;
    no_other_handler = refl;
    answered = refl;
    groups_created = refl;
    service_timeout = t;
  },
  action,
  refl,
  t',
)

construct-IsUrServing :
    (ros : Ros) {b : Built Node Handler}
    → IsRanged ros
    → construct ros ≡ some b
    → IsUrServing (spun b)
construct-IsUrServing ros ranged e =
    let (service, action, period, given, given', same) = construct-built ros e in
    subst (λ (b : Built Node Handler). IsUrServing (spun b)) same
      (built-IsUrServing service action period
        (declare_timeout-IsTimeout ros _ _ _ service ranged given)
        (declare_timeout-IsTimeout ros _ _ _ action ranged given'))

pub main_process-IsUrServing :
    (ros : Ros) {p : Process Node Handler}
    → IsRanged ros
    → main_process ros ≡ some p
    → IsUrServing p
unfolding main_process
main_process-IsUrServing ros {p} ranged e = elim (Option-cases (construct ros)) [
  | inl thrown ↦ absurd (ground (arith, thrown, e))
  | inr (b, left) ↦
      let same : spun b ≡ p = ground (arith, left, e) in
      subst IsUrServing same (construct-IsUrServing ros ranged left)
]
