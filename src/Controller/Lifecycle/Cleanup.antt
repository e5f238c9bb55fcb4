-- ===== src/Controller/Lifecycle/Cleanup.antt =====
-- What a cleanup leaves to the realtime cycle and to the timer.
use icon_hwm_controller.Prelude.{ℕ, ◌≡◌, false, none, arith}
use icon_hwm_controller.Status.{done}
use icon_hwm_controller.Controller.Params.{CallbackReturn}
use icon_hwm_controller.Controller.Lifecycle.{
  Icon, Controller, ReturnType, on_cleanup, update, publish_current_hwm_state,
}

module _ (icon : Icon) where
  pub cleanup-stopped :
      (c : Controller icon) (c' : Controller icon)
      → on_cleanup icon c ≡ done (CallbackReturn.success, c')
      → (c'.runtime ≡ none)
        × (c'.clock ≡ none)
        × (c'.timer ≡ false)
        × (c'.init_error_state ≡ c.init_error_state)
  unfolding on_cleanup
  cleanup-stopped c c' e = ground arith

  update_of_clock :
      (c : Controller icon) (now period : ℕ)
      → c.clock ≡ none
      → update icon c now period ≡ (ReturnType.error, c)
  unfolding update
  update_of_clock c now period n = rw n

  -- A cleanup that succeeds leaves neither a runtime nor a clock nor the timer: the realtime cycle then
  -- reports an error and changes nothing, and what is published is the initialisation error, if any.
  pub cleanup_stops :
      (c c' : Controller icon) (now period : ℕ)
      → on_cleanup icon c ≡ done (CallbackReturn.success, c')
      → (c'.runtime ≡ none)
        × (c'.timer ≡ false)
        × (update icon c' now period ≡ (ReturnType.error, c'))
        × (publish_current_hwm_state icon c' ≡ c.init_error_state)
  unfolding publish_current_hwm_state
  cleanup_stops c c' now period e =
      let (runtime, clock, timer, saved) = cleanup-stopped c c' e in
      (runtime, timer, update_of_clock c' now period clock, rw runtime saved)
