-- ===== src/Serving/Fanuc.antt =====
-- The FANUC node as it is built.
use mathlib.Core.Path.{subst}
use icon_hwm_controller.Prelude.{
  ℤ, pos, ◌≡◌, refl, List, [], ◌∷◌, some, arith, Option-cases, inl, inr,
}
use icon_hwm_controller.Ros.{
  Ros, Built, Process, declare_publish_rate, declare_timeout, timer_period, create_entities,
}
use icon_hwm_controller.Serving.{IsRanged, IsTimeout, IsServing, spun, declare_timeout-IsTimeout}
use icon_hwm_controller.Fanuc.Node.{Node, start}
use icon_hwm_controller.Fanuc.Setup.{
  Handler, construct, main_process, built, entities, robot_status_callback,
  publish_operational_status, clear_faults_callback,
}

abbrev pub publishing : List Handler
publishing = robot_status_callback ∷ publish_operational_status ∷ []

construct-built :
    (ros : Ros) {b : Built Node Handler}
    → construct ros ≡ some b
    → (timeout period : ℤ) × (declare_timeout ros "service_timeout_sec"
          (pos 5)
          "Service timeout in seconds."
        ≡ some timeout)
      × (built timeout (entities period) ≡ b)
unfolding construct built create_entities
construct-built ros e = elim (Option-cases (declare_publish_rate ros)) [
  | inl thrown ↦ absurd (ground (arith, thrown, e))
  | inr (rate, declared) ↦
      elim (Option-cases
        (declare_timeout ros "service_timeout_sec" (pos 5) "Service timeout in seconds.")) [
          | inl thrown ↦ absurd (ground (arith, thrown, declared, e))
          | inr (timeout, given) ↦
              (timeout, timer_period ros rate, given, ground (arith, declared, given, e))
        ]
]

built-IsServing :
    (timeout period : ℤ)
    → IsTimeout timeout
    → IsServing start publishing clear_faults_callback (spun (built timeout (entities period)))
unfolding built entities
built-IsServing timeout period t = record {
  starts = refl;
  publishing_handlers = refl;
  publishing_in_turn = refl;
  serving_handler = refl;
  serving_in_turn = refl;
  no_other_handler = refl;
  answered = refl;
  groups_created = refl;
  service_timeout = t;
}

construct-IsServing :
    (ros : Ros) {b : Built Node Handler}
    → IsRanged ros
    → construct ros ≡ some b
    → IsServing start publishing clear_faults_callback (spun b)
construct-IsServing ros ranged e =
    let (timeout, period, given, same) = construct-built ros e in
    subst (λ (b : Built Node Handler). IsServing start publishing clear_faults_callback (spun b))
      same
      (built-IsServing timeout period (declare_timeout-IsTimeout ros _ _ _ timeout ranged given))

pub main_process-IsServing :
    (ros : Ros) {p : Process Node Handler}
    → IsRanged ros
    → main_process ros ≡ some p
    → IsServing start publishing clear_faults_callback p
unfolding main_process
main_process-IsServing ros {p} ranged e = elim (Option-cases (construct ros)) [
  | inl thrown ↦ absurd (ground (arith, thrown, e))
  | inr (b, left) ↦
      let same : spun b ≡ p = ground (arith, left, e) in
      subst (IsServing start publishing clear_faults_callback) same
        (construct-IsServing ros ranged left)
]
