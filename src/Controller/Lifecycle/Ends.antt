-- ===== src/Controller/Lifecycle/Ends.antt =====
-- How a configuration ends: what a success and what an error adds to the state that it starts from.
use icon_hwm_controller.Prelude.{
  ◌≡◌, ◌⊎◌, inl, inr, refl, String, Bool, true, false, Option, none, some, arith, not,
  if◌then◌else◌, ◌==◌,
}
use icon_hwm_controller.Status.{is_ok, Checked, undefined, done, Status, Expected, value}
use icon_hwm_controller.Controller.Params.{CallbackReturn, hwm_params}
use icon_hwm_controller.Hwm.Params.{Hwm, create}
use icon_hwm_controller.Controller.Message.{init_error}
use icon_hwm_controller.Controller.Lifecycle.{
  Icon, Host, Controller, failed, finish_run, start_runtime, create_runtime, create_module,
  create_clock, connect, connect, start_runtime, check_settings, on_configure,
}

module _ (icon : Icon) where
  -- What a success adds to the state that it starts from.
  pub record Started (c c' : Controller icon) : Type 0 where
    pub clock_driver : c.settings.drives_realtime_clock ≡ true
    pub hwm : Hwm
    pub created : create (hwm_params c.settings) ≡ value hwm
    pub clock : icon.Clock
    pub clock_set : c'.clock ≡ some clock
    pub runtime : icon.Runtime
    pub runtime_set : c'.runtime ≡ some runtime
    pub timer_kept : c'.timer ≡ c.timer
    pub no_error : c'.init_error_state ≡ c.init_error_state

  -- What an error leaves: a text, and the runtime as it was, or one that could not be started and has
  -- its clock.
  pub record Failed (c c' : Controller icon) : Type 0 where
    pub text : String
    pub saved : c'.init_error_state ≡ some (init_error text)
    pub runtime :
        (c'.runtime ≡ c.runtime)
        ⊎ ((r : icon.Runtime) × (c'.runtime ≡ some r) × (k : icon.Clock) × (c'.clock ≡ some k))

  abbrev pub Ends : Controller icon → Checked (CallbackReturn × Controller icon) → Type 0
  Ends c undefined = Unit
  Ends c (done (CallbackReturn.success, c')) = Started c c'
  Ends c (done (CallbackReturn.error, c')) = Failed c c'

  Ends-if :
      (c : Controller icon) (b : Bool) (x y : Checked (CallbackReturn × Controller icon))
      → (b ≡ true → Ends c x)
      → (b ≡ false → Ends c y)
      → Ends c (if b then x else y)
  Ends-if c true x y v w = v refl
  Ends-if c false x y v w = w refl

  failed-Ends : (c : Controller icon) (text : String) → Ends c (failed icon c text)
  unfolding failed
  failed-Ends c text = record { text = text; saved = refl; runtime = inl refl }

  module _ (host : Host) where
    finish_run-Ends :
        (c : Controller icon) (a : Status × icon.Runtime) (k : icon.Clock) (h : Hwm)
        → c.settings.drives_realtime_clock ≡ true
        → c.clock ≡ some k
        → create (hwm_params c.settings) ≡ value h
        → Ends c (finish_run icon host c a)
    unfolding finish_run failed
    finish_run-Ends c (s, r) k h drives has made =
        Ends-if c (is_ok s) _ _
          (λ fine. record {
            clock_driver = drives;
            hwm = h;
            created = made;
            clock = k;
            clock_set = has;
            runtime = r;
            runtime_set = refl;
            timer_kept = refl;
            no_error = refl;
          })
          (λ bad. record { text = _; saved = refl; runtime = inr (r, refl, k, has) })

    start_runtime-Ends :
        (c : Controller icon) (a : Expected icon.Runtime) (k : icon.Clock) (h : Hwm)
        → c.settings.drives_realtime_clock ≡ true
        → c.clock ≡ some k
        → create (hwm_params c.settings) ≡ value h
        → Ends c (start_runtime icon host c a)
    unfolding start_runtime
    start_runtime-Ends c (Expected.error s) k h drives has made = failed-Ends c _
    start_runtime-Ends c (value r) k h drives has made = finish_run-Ends c _ k h drives has made

    create_runtime-Ends :
        (c : Controller icon) (m : icon.SharedMemory) (a : Expected Hwm) (k : icon.Clock)
        → c.settings.drives_realtime_clock ≡ true
        → c.clock ≡ some k
        → create (hwm_params c.settings) ≡ a
        → Ends c (create_runtime icon host c m a)
    unfolding create_runtime
    create_runtime-Ends c m (Expected.error s) k drives has made = failed-Ends c _
    create_runtime-Ends c m (value h) k drives has made =
        Ends-if c (host.update_rate == 0) _ _ (λ _. record {})
          (λ _. start_runtime-Ends c _ k h drives has made)

    -- The clock that the state starts with does not matter.
    Ends-clock :
        (c : Controller icon) (k : icon.Clock) (r : Checked (CallbackReturn × Controller icon))
        → Ends (record c { clock = some k }) r
        → Ends c r
    Ends-clock c k undefined v = v
    Ends-clock c k (done (CallbackReturn.success, c')) v = record {
      clock_driver = v.clock_driver;
      hwm = v.hwm;
      created = v.created;
      clock = v.clock;
      clock_set = v.clock_set;
      runtime = v.runtime;
      runtime_set = v.runtime_set;
      timer_kept = v.timer_kept;
      no_error = v.no_error;
    }
    Ends-clock c k (done (CallbackReturn.error, c')) v = record {
      text = v.text;
      saved = v.saved;
      runtime = v.runtime;
    }

    create_module-Ends :
        (c : Controller icon) (m : icon.SharedMemory) (a : Expected icon.Clock)
        → c.settings.drives_realtime_clock ≡ true
        → Ends c (create_module icon host c m a)
    unfolding create_module
    create_module-Ends c m (Expected.error s) drives = failed-Ends c _
    create_module-Ends c m (value k) drives =
        Ends-clock c k _ (create_runtime-Ends (record c { clock = some k }) m _ k drives refl refl)

    create_clock-Ends :
        (c : Controller icon) (a : Expected icon.SharedMemory) → Ends c (create_clock icon host c a)
    unfolding create_clock
    create_clock-Ends c (Expected.error s) = failed-Ends c _
    create_clock-Ends c (value m) =
        Ends-if c (not c.settings.drives_realtime_clock) _ _ (λ _. failed-Ends c _)
          (λ drives. create_module-Ends c m _ (ground arith))

    connect-Ends : (c : Controller icon) (a : Option String) → Ends c (connect icon host c a)
    unfolding connect
    connect-Ends c (some text) = failed-Ends c text
    connect-Ends c none = create_clock-Ends c _

    -- The state in which `on_configure` starts its checks.
    abbrev pub fresh : Controller icon → Controller icon
    fresh c = record c { init_error_state = none; publisher = true; timer = true }

    pub configure-Ends : (c : Controller icon) → Ends (fresh c) (on_configure icon host c)
    unfolding on_configure
    configure-Ends c = connect-Ends (fresh c) (check_settings c.settings host.update_rate)
