-- ===== src/Controller/Lifecycle/Stages.antt =====
-- The stages that ros2_control leads the controller through, and what holds in each of them.
use icon_hwm_controller.Prelude.{
  ℕ, ◌+◌, Bool-cases, inl, inr, ◌≡◌, ◌≢◌, refl, true, false, none, some, arith,
}
use icon_hwm_controller.Status.{is_ok, undefined, done}
use icon_hwm_controller.Controller.Params.{Settings, CallbackReturn}
use icon_hwm_controller.Controller.Lifecycle.{
  Icon, Host, Controller, ReturnType, on_configure, on_activate, on_deactivate, on_cleanup, update,
}
use icon_hwm_controller.Controller.Lifecycle.Outcome.{configure_success, on_configure-defined}

pub data Stage : Type 0 where
  unconfigured inactive active finalized : Stage

-- After an error the default error handler of the lifecycle decides, which is not the controller's: the
-- node is unconfigured again or finalized.
pub data Recovered : Stage → Type 0 where
  to_unconfigured : Recovered unconfigured
  to_finalized : Recovered finalized

module _ (icon : Icon) (host : Host) where
  -- The initial state, after `on_init`.
  abbrev pub fresh_controller : Settings → Controller icon
  fresh_controller p = record {
    settings = p;
    publisher = false;
    timer = false;
    clock = none;
    runtime = none;
    init_error_state = none;
  }

  -- The transitions that ros2_control asks for: each calls one callback in one stage. `update` is called
  -- for an active controller only.
  pub data Move (c : Controller icon) : Stage → Controller icon → Stage → Type 0 where
    configured :
        {c' : Controller icon}
        → on_configure icon host c ≡ done (CallbackReturn.success, c')
        → Move c unconfigured c' inactive
    not_configured :
        {c' : Controller icon} {g : Stage}
        → on_configure icon host c ≡ done (CallbackReturn.error, c')
        → Recovered g
        → Move c unconfigured c' g
    activated : Move c inactive (on_activate icon c).1 active
    deactivated : Move c active (on_deactivate icon c).1 inactive
    cleaned :
        {c' : Controller icon}
        → on_cleanup icon c ≡ done (CallbackReturn.success, c')
        → Move c inactive c' unconfigured
    not_cleaned :
        {c' : Controller icon} {g : Stage}
        → on_cleanup icon c ≡ done (CallbackReturn.error, c')
        → Recovered g
        → Move c inactive c' g
    cycled : (now period : ℕ) → Move c active (update icon c now period).1 active

  pub data Reach (p : Settings) : Controller icon → Stage → Type 0 where
    start : Reach p (fresh_controller p) unconfigured
    later : {c c' : Controller icon} {g g' : Stage} → Reach p c g → Move c g c' g' → Reach p c' g'

  -- A controller that can run: it has its clock, its runtime and its timer, and no error.
  pub record IsRunning (c : Controller icon) : Type 0 where
    pub clock : icon.Clock
    pub clock_set : c.clock ≡ some clock
    pub runtime : icon.Runtime
    pub runtime_set : c.runtime ≡ some runtime
    pub timer_set : c.timer ≡ true
    pub no_error : c.init_error_state ≡ none

  abbrev pub Holds : Controller icon → Stage → Type 0
  Holds c inactive = IsRunning c
  Holds c active = IsRunning c
  Holds c unconfigured = Unit
  Holds c finalized = Unit

  Recovered-Holds : {g : Stage} (c : Controller icon) → Recovered g → Holds c g
  Recovered-Holds c to_unconfigured = tt
  Recovered-Holds c to_finalized = tt

  configured-IsRunning :
      (c c' : Controller icon)
      → on_configure icon host c ≡ done (CallbackReturn.success, c')
      → IsRunning c'
  configured-IsRunning c c' e =
      let (_, v) = configure_success icon host c c' e in
      record {
        clock = v.clock;
        clock_set = v.clock_set;
        runtime = v.runtime;
        runtime_set = v.runtime_set;
        timer_set = v.timer_kept;
        no_error = v.no_error;
      }

  updated-IsRunning :
      (c : Controller icon) (now period : ℕ) → IsRunning c → IsRunning (update icon c now period).1
  unfolding update
  updated-IsRunning c now period v =
      rw v.clock_set (elim (Bool-cases (is_ok (icon.tick v.clock now (now + period)).0)) [
        | inl fine ↦ rw fine (record {
          clock = _;
          clock_set = refl;
          runtime = v.runtime;
          runtime_set = v.runtime_set;
          timer_set = v.timer_set;
          no_error = v.no_error;
        })
        | inr late ↦ rw late (record {
          clock = _;
          clock_set = refl;
          runtime = v.runtime;
          runtime_set = v.runtime_set;
          timer_set = v.timer_set;
          no_error = v.no_error;
        })
      ])

  update-ok :
      (c : Controller icon) (now period : ℕ)
      → IsRunning c
      → (update icon c now period).0 ≡ ReturnType.ok
  unfolding update
  update-ok c now period v = ground (arith, v.clock_set)

  cleanup-ne-undefined : (c : Controller icon) → IsRunning c → on_cleanup icon c ≢ undefined
  unfolding on_cleanup
  cleanup-ne-undefined c v = λ e. ground (arith, v.timer_set, e)

  Move-Holds : {c c' : Controller icon} {g g' : Stage} → Move c g c' g' → Holds c g → Holds c' g'
  unfolding on_activate on_deactivate
  Move-Holds (configured e) v = configured-IsRunning _ _ e
  Move-Holds (not_configured e r) v = Recovered-Holds _ r
  Move-Holds activated v = v
  Move-Holds deactivated v = v
  Move-Holds (cleaned e) v = tt
  Move-Holds (not_cleaned e r) v = Recovered-Holds _ r
  Move-Holds {c} (cycled now period) v = updated-IsRunning c now period v

  -- What holds in a stage holds however the stage was reached.
  pub Reach-Holds : {p : Settings} {c : Controller icon} {g : Stage} → Reach p c g → Holds c g
  Reach-Holds start = tt
  Reach-Holds (later r m) = Move-Holds m (Reach-Holds r)

  -- What the controller promises in each stage.
  abbrev pub Promise : Controller icon → Stage → Type 0
  Promise c inactive = IsRunning c × (on_cleanup icon c ≢ undefined)
  Promise c active = IsRunning c × ((now period : ℕ) → (update icon c now period).0 ≡ ReturnType.ok)
  Promise c unconfigured =
      (r : CallbackReturn × Controller icon) × (on_configure icon host c ≡ done r)
  Promise c finalized = Unit

  Promise-of_Holds :
      (c : Controller icon) (g : Stage) → host.update_rate ≢ 0 → Holds c g → Promise c g
  Promise-of_Holds c inactive n v = (v, cleanup-ne-undefined c v)
  Promise-of_Holds c active n v = (v, λ now period. update-ok c now period v)
  Promise-of_Holds c unconfigured n v = on_configure-defined icon host c n
  Promise-of_Holds c finalized n v = tt

  -- With an update rate above zero, by whatever configurations, failures and cleanups ros2_control has led
  -- the controller: an unconfigured one's configuration returns; an inactive or active one has a clock,
  -- a runtime, its timer and no initialisation error; an active one's realtime cycle always reports
  -- success, and an inactive one can be cleaned up without a step out of range.
  pub stages_keep :
      {p : Settings} {c : Controller icon} {g : Stage}
      → host.update_rate ≢ 0
      → Reach p c g
      → Promise c g
  stages_keep {c} {g} n r = Promise-of_Holds c g n (Reach-Holds r)
