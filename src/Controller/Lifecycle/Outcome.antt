-- ===== src/Controller/Lifecycle/Outcome.antt =====
-- What a configuration leaves behind, on success and on error, and how cleanup and the realtime
-- cycle follow it.
use icon_hwm_controller.Prelude.{
  ℕ, ◌≡◌, ◌≢◌, ◌⊎◌, inl, inr, refl, String, false, List, [], Option, none, some, arith, empty_str,
}
use icon_hwm_controller.Status.{
  Status, Checked, undefined, done, Checked-total, Expected, value, Expected-cases,
}
use icon_hwm_controller.Controller.Params.{Settings, CallbackReturn}
use mathlib.Core.Path.{subst}
use icon_hwm_controller.Controller.Message.{HardwareModuleState, init_error, state_message}
use icon_hwm_controller.Controller.Lifecycle.Ends.{Started, Ends, fresh, configure-Ends}
use icon_hwm_controller.Controller.Lifecycle.Reasons.{
  Cause, Unstarted, Running, Explained, Explains,
}
use icon_hwm_controller.Controller.Lifecycle.Failures.{configure-Explains}
use icon_hwm_controller.Controller.Lifecycle.{
  Icon, Host, Controller, failed, connect, connect, check_settings, on_configure, current_state,
  publish_current_hwm_state,
}

check_settings-none :
    (p : Settings) (rate : ℕ)
    → check_settings p rate ≡ none
    → (empty_str p.name ≡ false)
      × (p.command_interfaces ≢ [])
      × (p.reference_and_state_interfaces ≢ [])
      × (p.dof_names ≢ [])
unfolding check_settings
check_settings-none p rate e = ground arith

module _ (icon : Icon) where
  publish_saved :
      (c : Controller icon) {m : HardwareModuleState}
      → c.runtime ≡ none
      → c.init_error_state ≡ some m
      → publish_current_hwm_state icon c ≡ some m
  unfolding publish_current_hwm_state
  publish_saved c n e = rw (n, e)

  -- What is published for a runtime: its state, or nothing where that cannot be read.
  abbrev pub Reports : icon.Runtime → Option HardwareModuleState → Type 0
  Reports r published =
      ((s : Status) × (icon.get_state r ≡ Expected.error s) × (published ≡ none))
      ⊎ ((code : ℕ) × (bytes : List ℕ) × (icon.get_state r ≡ value (code, bytes))
          × (published ≡ some (state_message code bytes)))

  publish_runtime :
      (c : Controller icon) (r : icon.Runtime)
      → c.runtime ≡ some r
      → Reports r (publish_current_hwm_state icon c)
  unfolding publish_current_hwm_state
  publish_runtime c r e = elim (Expected-cases (icon.get_state r)) [
    | inl (s, lost) ↦ inl (s, lost, rw (e, current_state, lost))
    | inr ((code, bytes), state) ↦ inr (code, bytes, state, rw (e, current_state, state))
  ]

  module _ (host : Host) where
    connect_checked :
        (c c' : Controller icon) (a : Option String)
        → connect icon host c a ≡ done (CallbackReturn.success, c')
        → a ≡ none
    unfolding connect failed
    connect_checked c c' none e = refl
    connect_checked c c' (some text) e = absurd (ground arith)

    configure_checked :
        (c c' : Controller icon)
        → on_configure icon host c ≡ done (CallbackReturn.success, c')
        → check_settings c.settings host.update_rate ≡ none
    unfolding on_configure
    configure_checked c c' e =
        connect_checked (fresh icon host c) c' (check_settings c.settings host.update_rate) e

    -- A configuration that succeeds had a name, interfaces of both kinds, axes and the role of the
    -- clock driver, and settings that make a hardware module; it leaves a clock, a runtime and the
    -- timer, and no initialisation error.
    pub configure_success :
        (c c' : Controller icon)
        → on_configure icon host c ≡ done (CallbackReturn.success, c')
        → ((empty_str c.settings.name ≡ false)
            × (c.settings.command_interfaces ≢ [])
            × (c.settings.reference_and_state_interfaces ≢ [])
            × (c.settings.dof_names ≢ []))
          × Started icon (fresh icon host c) c'
    configure_success c c' e = (
      check_settings-none c.settings host.update_rate (configure_checked c c' e),
      subst (Ends icon (fresh icon host c)) e (configure-Ends icon host c),
    )

    configure-ne-undefined :
        (c : Controller icon) → host.update_rate ≢ 0 → on_configure icon host c ≢ undefined
    unfolding on_configure
    configure-ne-undefined c n = λ e. ground arith

    -- With an update rate above zero every configuration returns.
    pub on_configure-defined :
        (c : Controller icon)
        → host.update_rate ≢ 0
        → (r : CallbackReturn × Controller icon) × (on_configure icon host c ≡ done r)
    on_configure-defined c n = Checked-total (on_configure icon host c) (configure-ne-undefined c n)

    -- The text of a reason is kept. Before there is a runtime it is published; a runtime that could not be
    -- started stays.
    abbrev pub Fails : Settings → Controller icon → Type 0
    Fails p c' =
        (text : String) × (c'.init_error_state ≡ some (init_error text))
        × ((Cause icon host p text
              × (c'.runtime ≡ none)
              × (publish_current_hwm_state icon c' ≡ some (init_error text)))
            ⊎ ((r : icon.Runtime) × Unstarted icon host p text r
                × (c'.runtime ≡ some r)
                × Reports r (publish_current_hwm_state icon c')))

    -- A runtime was started and is kept, its state is published, and there is no initialisation error.
    abbrev pub Runs : Settings → Controller icon → Type 0
    Runs p c' =
        Running icon host p none c'
        × ((r : icon.Runtime) × (c'.runtime ≡ some r)
            × Reports r (publish_current_hwm_state icon c'))

    Explained-Fails :
        {p : Settings} {c' : Controller icon} → Explained icon host p none c' → Fails p c'
    Explained-Fails {c'} v = (
      v.text,
      v.saved,
      elim v.why [
        | inl (cause, none_left) ↦ inl (cause, none_left, publish_saved c' none_left v.saved)
        | inr (r, unstarted, kept) ↦ inr (r, unstarted, kept, publish_runtime c' r kept)
      ],
    )

    outcome_of_result :
        {p : Settings} (a : Checked (CallbackReturn × Controller icon))
        → a ≢ undefined
        → Explains icon host p none none a
        → (c' : Controller icon) × (((a ≡ done (CallbackReturn.success, c')) × Runs p c')
            ⊎ ((a ≡ done (CallbackReturn.error, c')) × Fails p c'))
    outcome_of_result undefined n v = absurd (n refl)
    outcome_of_result (done (CallbackReturn.success, c')) n v =
        (c', inl (refl, (v, (v.r, v.kept, publish_runtime c' v.r v.kept))))
    outcome_of_result (done (CallbackReturn.error, c')) n v = (c', inr (refl, Explained-Fails v))

    -- With an update rate above zero, a configuration without a runtime returns. It succeeds when the
    -- settings are accepted, the shared memory, the clock, the hardware module and the runtime could be
    -- created, the controller is the clock driver, and the runtime could be started; that runtime is
    -- then kept, its state is what is published, or nothing where that cannot be read, and there is no
    -- initialisation error. Otherwise it fails, and the text of the first thing that went wrong is kept.
    -- Where there is no runtime yet, that text is also what is published; a runtime that could not be
    -- started stays, and it is its state that is published, or nothing where that cannot be read.
    pub configure_outcome :
        (c : Controller icon)
        → c.runtime ≡ none
        → host.update_rate ≢ 0
        → (c' : Controller icon) × (((on_configure icon host c ≡ done (CallbackReturn.success, c'))
              × Runs c.settings c')
            ⊎ ((on_configure icon host c ≡ done (CallbackReturn.error, c')) × Fails c.settings c'))
    configure_outcome c n rate =
        outcome_of_result (on_configure icon host c) (configure-ne-undefined c rate) (
          subst (λ runtime. Explains icon host c.settings runtime none (on_configure icon host c)) n
            (configure-Explains icon host c))
