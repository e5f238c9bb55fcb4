-- ===== src/Controller/Lifecycle/Lifetime.antt =====
-- The clock outlives the runtime, whose hardware module points to it.
use icon_hwm_controller.Prelude.{◌≡◌, ◌≢◌, refl, ◌∙◌, inl, inr, ◌⊎◌, none, some, arith}
use mathlib.Core.Path.{subst}
use icon_hwm_controller.Status.{done}
use icon_hwm_controller.Controller.Params.{Settings, CallbackReturn}
use icon_hwm_controller.Controller.Lifecycle.{Icon, Host, Controller, on_configure, on_cleanup}
use icon_hwm_controller.Controller.Lifecycle.Ends.{Failed, Ends, fresh, configure-Ends}
use icon_hwm_controller.Controller.Lifecycle.Cleanup.{cleanup-stopped}
use icon_hwm_controller.Controller.Lifecycle.Stages.{
  Stage, unconfigured, Recovered, to_unconfigured, to_finalized, Move, configured, not_configured,
  activated, deactivated, cleaned, not_cleaned, cycled, Reach, start, later, IsRunning, Reach-Holds,
}

module _ (icon : Icon) (host : Host) where
  -- Every error has finalized the controller, as the default error handler of a lifecycle node does.
  abbrev Finalizes : {g : Stage} → Recovered g → Type 0
  Finalizes to_unconfigured = ⊥
  Finalizes to_finalized = Unit

  abbrev Final : {c c' : Controller icon} {g g' : Stage} → Move icon host c g c' g' → Type 0
  Final (not_configured e r) = Finalizes r
  Final (not_cleaned e r) = Finalizes r
  Final _ = Unit

  abbrev pub ErrorsFinalize :
      {p : Settings} {c : Controller icon} {g : Stage} → Reach icon host p c g → Type 0
  ErrorsFinalize start = Unit
  ErrorsFinalize (later r m) = ErrorsFinalize r × Final m

  -- A runtime has a clock.
  abbrev pub HasClock : Controller icon → Type 0
  HasClock c = (c.runtime ≡ none) ⊎ ((k : icon.Clock) × (c.clock ≡ some k))

  failed-HasClock :
      (c c' : Controller icon)
      → c.runtime ≡ none
      → on_configure icon host c ≡ done (CallbackReturn.error, c')
      → HasClock c'
  failed-HasClock c c' n e =
      let v : Failed icon (fresh icon host c) c' =
        subst (Ends icon (fresh icon host c)) e (configure-Ends icon host c) in
      elim v.runtime [ inl same ↦ inl (same ∙ n) | inr (_, _, k, at) ↦ inr (k, at) ]

  uncleaned-clock :
      (c c' : Controller icon)
      → on_cleanup icon c ≡ done (CallbackReturn.error, c')
      → c'.clock ≡ c.clock
  unfolding on_cleanup
  uncleaned-clock c c' e = ground arith

  running-HasClock :
      (c : Controller icon) (g : Stage)
      → IsRunning icon host c
      → g ≢ unconfigured
      → HasClock c × (g ≡ unconfigured → c.runtime ≡ none)
  running-HasClock c g v there = (inr (v.clock, v.clock_set), λ e. absurd (there e))

  -- While every error finalizes the controller: a controller with a runtime has a clock, and when it is
  -- about to be configured, which is when a clock is made, it has no runtime, so that no clock is
  -- replaced under a runtime that uses it.
  pub clock_outlives_runtime :
      {p : Settings} {c : Controller icon} {g : Stage} (r : Reach icon host p c g)
      → ErrorsFinalize r
      → HasClock c × (g ≡ unconfigured → c.runtime ≡ none)
  clock_outlives_runtime start f = (inl refl, λ _. refl)
  clock_outlives_runtime (later r (configured e)) f =
      running-HasClock _ _ (Reach-Holds icon host (later r (configured e))) (λ q. ground (arith, q))
  clock_outlives_runtime (later r (not_configured e to_unconfigured)) (_, f) = absurd f
  clock_outlives_runtime (later r (not_configured e to_finalized)) (before, f) =
      let (_, free) = clock_outlives_runtime r before in
      (failed-HasClock _ _ (free refl) e, λ q. absurd (ground (arith, q)))
  clock_outlives_runtime (later r activated) f =
      running-HasClock _ _ (Reach-Holds icon host (later r activated)) (λ q. ground (arith, q))
  clock_outlives_runtime (later r deactivated) f =
      running-HasClock _ _ (Reach-Holds icon host (later r deactivated)) (λ q. ground (arith, q))
  clock_outlives_runtime (later r (cleaned e)) f =
      let (stopped, _, _, _) = cleanup-stopped icon _ _ e in (inl stopped, λ _. stopped)
  clock_outlives_runtime (later r (not_cleaned e to_unconfigured)) (_, f) = absurd f
  clock_outlives_runtime (later r (not_cleaned e to_finalized)) f =
      let v = (Reach-Holds icon host r) in
      (inr (v.clock, uncleaned-clock _ _ e ∙ v.clock_set), λ q. absurd (ground (arith, q)))
  clock_outlives_runtime (later r (cycled now period)) f =
      running-HasClock _ _ (Reach-Holds icon host (later r (cycled now period)))
        (λ q. ground (arith, q))
