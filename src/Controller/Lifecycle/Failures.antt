-- ===== src/Controller/Lifecycle/Failures.antt =====
-- The reason that each stage of `on_configure` gives for its success or failure.
use icon_hwm_controller.Prelude.{
  ◌/◌, ◌==◌, ◌≡◌, inl, inr, refl, String, true, map, Option, none, some, arith, not,
}
use icon_hwm_controller.Status.{Status, is_ok, Expected, value}
use icon_hwm_controller.Hwm.Params.{Hwm, create}
use icon_hwm_controller.Controller.Casts.{to_int}
use icon_hwm_controller.Controller.Params.{hwm_params}
use icon_hwm_controller.Controller.Lifecycle.Complaints.{
  IsAccepted, Verdict, if-rule, check_settings-Verdict,
}
use icon_hwm_controller.Controller.Lifecycle.Reasons.{
  HasMemory, HasClock, HasModule, HasRuntime, Cause, complaint, no_memory, not_driver, no_clock,
  no_module, no_runtime, Explains,
}
use icon_hwm_controller.Controller.Lifecycle.{
  Icon, Host, Controller, failed, finish_run, start_runtime, create_runtime, create_module,
  create_clock, connect, on_configure,
}

module _ (icon : Icon) (host : Host) where
  open icon use {SharedMemory, Clock, Runtime}

  failed-Explains :
      (c : Controller icon) {text : String}
      → Cause icon host c.settings text
      → Explains icon host c.settings c.runtime c.init_error_state (failed icon c text)
  unfolding failed
  failed-Explains c cause = record { text = _; saved = refl; why = inl (cause, refl) }

  finish_run-Explains :
      (c : Controller icon) (created : Runtime) (a : Status × Runtime)
      → HasRuntime icon host c.settings created
      → icon.run host.has_realtime_kernel (map to_int c.settings.cpu_affinity) created ≡ a
      → Explains icon host c.settings c.runtime c.init_error_state (finish_run icon host c a)
  unfolding finish_run failed
  finish_run-Explains c created (s, r) has ran =
      if-rule (Explains icon host c.settings c.runtime c.init_error_state) (is_ok s) _ _
        (λ good. record {
          created = created;
          has_runtime = has;
          outcome = s;
          r = r;
          run = ran;
          good = good;
          kept = refl;
          no_error = refl;
        })
        (λ bad. record {
          text = _;
          saved = refl;
          why = inr (
            r,
            record {
              created = created;
              has_runtime = has;
              outcome = s;
              run = ran;
              bad = bad;
              words = refl;
            },
            refl,
          );
        })

  start_runtime-Explains :
      (c : Controller icon) (m : SharedMemory) (k : Clock) (h : Hwm) (a : Expected Runtime)
      → HasModule icon host c.settings m k h
      → icon.create_runtime c.settings.name (1000000000 / host.update_rate) m h ≡ a
      → Explains icon host c.settings c.runtime c.init_error_state (start_runtime icon host c a)
  unfolding start_runtime
  start_runtime-Explains c m k h (Expected.error s) has e =
      failed-Explains c (no_runtime m k h has s e)
  start_runtime-Explains c m k h (value r) has e =
      finish_run-Explains c r _ (record { m = m; k = k; h = h; has_module = has; runtime = e }) refl

  create_runtime-Explains :
      (c : Controller icon) (m : SharedMemory) (k : Clock) (a : Expected Hwm)
      → HasClock icon host c.settings m k
      → create (hwm_params c.settings) ≡ a
      → Explains icon host c.settings c.runtime c.init_error_state (create_runtime icon host c m a)
  unfolding create_runtime
  create_runtime-Explains c m k (Expected.error s) has e = failed-Explains c (no_module m k has s e)
  create_runtime-Explains c m k (value h) has e =
      if-rule (Explains icon host c.settings c.runtime c.init_error_state) (host.update_rate == 0) _
        _ (λ _. tt)
        (λ _. start_runtime-Explains c m k h _ (record { has_clock = has; hwm = e }) refl)

  create_module-Explains :
      (c : Controller icon) (m : SharedMemory) (a : Expected Clock)
      → HasMemory icon host c.settings m
      → c.settings.drives_realtime_clock ≡ true
      → icon.create_clock m ≡ a
      → Explains icon host c.settings c.runtime c.init_error_state (create_module icon host c m a)
  unfolding create_module
  create_module-Explains c m (Expected.error s) has drives e =
      failed-Explains c (no_clock m has drives s e)
  create_module-Explains c m (value k) has drives e =
      create_runtime-Explains (record c { clock = some k }) m k _
        (record { has_memory = has; drives = drives; clock = e }) refl

  create_clock-Explains :
      (c : Controller icon) (a : Expected SharedMemory)
      → IsAccepted c.settings host.update_rate
      → icon.create_shared_memory c.settings.shm_namespace c.settings.name ≡ a
      → Explains icon host c.settings c.runtime c.init_error_state (create_clock icon host c a)
  unfolding create_clock
  create_clock-Explains c (Expected.error s) accepted e = failed-Explains c (no_memory accepted s e)
  create_clock-Explains c (value m) accepted e =
      let has : HasMemory icon host c.settings m = record { accepted = accepted; memory = e } in
      if-rule (Explains icon host c.settings c.runtime c.init_error_state)
        (not c.settings.drives_realtime_clock) _ _
        (λ no_driver. failed-Explains c (not_driver m has (ground arith)))
        (λ drives. create_module-Explains c m _ has (ground arith) refl)

  connect-Explains :
      (c : Controller icon) (a : Option String)
      → Verdict c.settings host.update_rate a
      → Explains icon host c.settings c.runtime c.init_error_state (connect icon host c a)
  unfolding connect
  connect-Explains c (some text) v = failed-Explains c (complaint v)
  connect-Explains c none v = create_clock-Explains c _ v refl

  pub configure-Explains :
      (c : Controller icon)
      → Explains icon host c.settings c.runtime none (on_configure icon host c)
  unfolding on_configure
  configure-Explains c =
      connect-Explains (record c { init_error_state = none; publisher = true; timer = true }) _
        (check_settings-Verdict c.settings host.update_rate)
