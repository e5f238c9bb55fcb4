-- ===== src/Controller/Lifecycle/Timer.antt =====
-- The timer's thread beside the lifecycle: `PublishCurrentHwmState` tests the pointer to the runtime, and
-- reads it again afterwards. The second read, and the call that is made through it, are one step.
use mathlib.Core.Path.{subst}
use icon_hwm_controller.Prelude.{
  ◌≡◌, ◌≢◌, refl, sym, ◌∙◌, inl, inr, true, Option, none, some, arith, ℕ,
}
use icon_hwm_controller.Status.{Checked, undefined, done}
use icon_hwm_controller.Controller.Params.{Settings, CallbackReturn}
use icon_hwm_controller.Controller.Message.{HardwareModuleState}
use icon_hwm_controller.Controller.Lifecycle.{
  Icon, Host, Controller, on_configure, on_activate, on_deactivate, on_cleanup, update,
  current_state, publish_current_hwm_state,
}
use icon_hwm_controller.Controller.Lifecycle.Ends.{Failed, Ends, fresh, configure-Ends}
use icon_hwm_controller.Controller.Lifecycle.Cleanup.{cleanup-stopped}
use icon_hwm_controller.Controller.Lifecycle.Stages.{
  Stage, unconfigured, inactive, Move, configured, not_configured, activated, deactivated, cleaned,
  not_cleaned, cycled, fresh_controller, Reach-Holds, Reach as StageReach, start as stage_start,
  later as stage_later,
}

-- Where the callback is: not running, or past its test of the pointer.
pub data Reader : Type 0 where
  resting saw_none saw_runtime : Reader

module _ (icon : Icon) where
  -- The test of the pointer.
  tested : Option icon.Runtime → Reader
  tested none = saw_none
  tested (some r) = saw_runtime

  unfoldable pub begin : Controller icon → Reader
  unfolding tested
  begin c = tested c.runtime

  -- To follow a null pointer is undefined.
  follow : Option icon.Runtime → Checked (Option HardwareModuleState)
  unfolding current_state
  follow none = undefined
  follow (some r) = done (current_state icon none (some r))

  -- The rest of the callback: the message that is published, if one is.
  unfoldable pub finish : Controller icon → Reader → Checked (Option HardwareModuleState)
  unfolding follow
  finish c resting = done none
  finish c saw_none = done c.init_error_state
  finish c saw_runtime = follow c.runtime

  finish-tested :
      (c : Controller icon) (a : Option icon.Runtime)
      → c.runtime ≡ a
      → finish c (begin c) ≡ done (publish_current_hwm_state icon c)
  unfolding finish begin publish_current_hwm_state
  finish-tested c none e = rw e refl
  finish-tested c (some r) e = rw e refl

  -- Without a step in between the two parts are the callback.
  pub finish-begin :
      (c : Controller icon) → finish c (begin c) ≡ done (publish_current_hwm_state icon c)
  finish-begin c = finish-tested c c.runtime refl

  module _ (host : Host) where
    -- The two threads: the timer calls the callback while it is set, one call at a time, and the
    -- lifecycle moves at any point.
    pub data Reach (p : Settings) : Controller icon → Stage → Reader → Type 0 where
      start : Reach p (fresh_controller icon host p) unconfigured resting
      begins :
          {c : Controller icon} {g : Stage}
          → Reach p c g resting
          → c.timer ≡ true
          → Reach p c g (begin c)
      finishes :
          {c : Controller icon} {g : Stage} {r : Reader} {m : Option HardwareModuleState}
          → Reach p c g r
          → r ≢ resting
          → finish c r ≡ done m
          → Reach p c g resting
      moves :
          {c c' : Controller icon} {g g' : Stage} {r : Reader}
          → Reach p c g r
          → Move icon host c g c' g'
          → Reach p c' g' r

    stages :
        {p : Settings} {c : Controller icon} {g : Stage} {r : Reader}
        → Reach p c g r
        → StageReach icon host p c g
    stages start = stage_start
    stages (begins v t) = stages v
    stages (finishes v n e) = stages v
    stages (moves v m) = stage_later (stages v) m

    -- No cleanup succeeds between the callback's test and its end.
    abbrev Spares :
        {c c' : Controller icon} {g g' : Stage} → Move icon host c g c' g' → Reader → Type 0
    Spares (cleaned e) r = r ≢ saw_runtime
    Spares _ r = Unit

    abbrev pub Undisturbed :
        {p : Settings} {c : Controller icon} {g : Stage} {r : Reader} → Reach p c g r → Type 0
    Undisturbed start = Unit
    Undisturbed (begins v t) = Undisturbed v
    Undisturbed (finishes v n e) = Undisturbed v
    Undisturbed {r} (moves v m) = Undisturbed v × Spares m r

    -- The pointer is set whenever the callback has seen it set.
    abbrev Seen : Controller icon → Reader → Type 0
    Seen c r = r ≡ saw_runtime → c.runtime ≢ none

    begin-Seen : (c : Controller icon) → Seen c (begin c)
    unfolding begin
    begin-Seen c e n = ground (arith, e, n)

    failed-Seen :
        (c c' : Controller icon) (r : Reader)
        → on_configure icon host c ≡ done (CallbackReturn.error, c')
        → Seen c r
        → Seen c' r
    failed-Seen c c' r e v q n =
        let w : Failed icon (fresh icon host c) c' =
          subst (Ends icon (fresh icon host c)) e (configure-Ends icon host c) in
        elim w.runtime [ inl same ↦ v q (sym same ∙ n) | inr (k, at, _, _) ↦ ground (arith, at, n) ]

    uncleaned-Seen :
        (c c' : Controller icon)
        → on_cleanup icon c ≡ done (CallbackReturn.error, c')
        → c'.runtime ≢ none
    unfolding on_cleanup
    uncleaned-Seen c c' e n = ground (arith, e, n)

    update-runtime :
        (c : Controller icon) (now period : ℕ) → (update icon c now period).1.runtime ≡ c.runtime
    unfolding update
    update-runtime c now period = ground arith

    runs-Seen :
        {p : Settings} {c : Controller icon} {g : Stage} {r : Reader} (v : Reach p c g r)
        → Undisturbed v
        → Seen c r
    unfolding on_activate on_deactivate
    runs-Seen start u q n = ground (arith, q)
    runs-Seen (begins {c} v t) u q n = begin-Seen c q n
    runs-Seen (finishes v m e) u q n = ground (arith, q)
    runs-Seen (moves v (configured e)) u q n =
        let w = Reach-Holds icon host (stages (moves v (configured e))) in
        ground (arith, w.runtime_set, n)
    runs-Seen (moves v (not_configured e _)) (u, _) q n = failed-Seen _ _ _ e (runs-Seen v u) q n
    runs-Seen (moves v activated) (u, _) q n = runs-Seen v u q n
    runs-Seen (moves v deactivated) (u, _) q n = runs-Seen v u q n
    runs-Seen (moves v (cleaned e)) (u, spared) q n = spared q
    runs-Seen (moves v (not_cleaned e _)) u q n = uncleaned-Seen _ _ e n
    runs-Seen (moves {c} v (cycled now period)) (u, _) q n =
        runs-Seen v u q (sym (update-runtime c now period) ∙ n)

    finish-defined : (c : Controller icon) (r : Reader) → Seen c r → finish c r ≢ undefined
    unfolding finish
    finish-defined c resting v e = ground (arith, e)
    finish-defined c saw_none v e = ground (arith, e)
    finish-defined c saw_runtime v e = v refl (ground (arith, e))

    -- As long as no cleanup succeeds between the test of the timer's callback and its end, the callback
    -- never follows a null pointer, wherever else the lifecycle moves in between.
    pub calm_callback :
        {p : Settings} {c : Controller icon} {g : Stage} {r : Reader} (v : Reach p c g r)
        → Undisturbed v
        → finish c r ≢ undefined
    calm_callback {c} {r} v u = finish-defined c r (runs-Seen v u)

    finish_of_none : (c : Controller icon) → c.runtime ≡ none → finish c saw_runtime ≡ undefined
    unfolding finish
    finish_of_none c n = rw n refl

    begin_of_runtime :
        (c : Controller icon) (r : icon.Runtime) → c.runtime ≡ some r → begin c ≡ saw_runtime
    unfolding begin
    begin_of_runtime c r e = rw e refl

    -- Every inactive controller can be cleaned up under the callback: when the callback has tested the
    -- pointer and the cleanup, which does not wait for it, succeeds before the callback reads the
    -- pointer again, the callback follows a null pointer.
    pub cleanup_race :
        {p : Settings} {c c' : Controller icon}
        → Reach p c inactive resting
        → on_cleanup icon c ≡ done (CallbackReturn.success, c')
        → Reach p c' unconfigured saw_runtime × (finish c' saw_runtime ≡ undefined)
    cleanup_race {p} {c} {c'} v e =
        let w = Reach-Holds icon host (stages v) in
        let (gone, _, _, _) = cleanup-stopped icon c c' e in
        (
          subst (Reach p c' unconfigured) (begin_of_runtime c w.runtime w.runtime_set)
              (moves (begins v w.timer_set) (cleaned e)),
          finish_of_none c' gone,
        )
