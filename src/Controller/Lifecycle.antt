-- ===== src/Controller/Lifecycle.antt =====
-- The lifecycle callbacks of the controller, its realtime `update`, and the timer's callback.
pub mod Ends
pub mod Complaints
pub mod Reasons
pub mod Failures
pub mod Outcome
pub mod Lifetime
pub mod Timer
pub mod Cleanup
pub mod Stages
use icon_hwm_controller.Prelude.{
  ℕ, ◌+◌, ◌/◌, ◌==◌, ℤ, pos, negsuc, String, Bool, true, false, List, [], ◌∷◌, map, Option, none,
  some, if◌then◌else◌, ◌&&◌, not, is_empty, empty_str, concat, decimal, decimal_ℤ,
}
use icon_hwm_controller.Status.{Status, is_ok, Checked, undefined, done, Expected, value}
use icon_hwm_controller.Hwm.Params.{Hwm, create}
use icon_hwm_controller.Controller.Casts.{to_unsigned, to_int}
use icon_hwm_controller.Controller.Params.{Settings, CallbackReturn, hwm_params}
use icon_hwm_controller.Controller.Message.{HardwareModuleState, init_error, state_message}

-- The ICON library: shared memory, the realtime clock and the runtime of a hardware module. Each
-- operation on a clock or on a runtime returns what it made of it.
pub record Icon : Type 1 where
  pub SharedMemory : Type 0
  pub Clock : Type 0
  pub Runtime : Type 0
  pub to_string : Status → String
  pub create_shared_memory : String → String → Expected SharedMemory
  pub create_clock : SharedMemory → Expected Clock
  pub tick : Clock → ℕ → ℕ → Status × Clock
  pub reset : Clock → ℕ → Status × Clock  -- milliseconds
  pub create_runtime : String → ℕ → SharedMemory → Hwm → Expected Runtime
  pub run : Bool → List ℤ → Runtime → Status × Runtime
  pub stop : Runtime → Status × Runtime
  pub get_state : Runtime → Expected (ℕ × List ℕ)

-- What the host says: the rate of the controller manager, and whether its kernel is realtime.
pub record Host : Type 0 where
  pub update_rate : ℕ  -- unsigned int
  pub has_realtime_kernel : Bool

pub data ReturnType : Type 0 where
  ok error : ReturnType

-- The five checks that need only the parameters, and the text of the first that fails.
check_frequency : ℤ → ℕ → Option String
check_frequency (negsuc n) rate = none
check_frequency (pos n) rate =
    if not (n == 0) && not (to_unsigned n == rate)
    then some (
        concat (
          "Parameter 'control_frequency_hz' ("
          ∷ decimal n
          ∷ ") does not match update_rate ("
          ∷ decimal rate
          ∷ ")."
          ∷ []))
    else none

unfoldable pub check_settings : Settings → ℕ → Option String
unfolding check_frequency
check_settings p rate =
    if empty_str p.name
    then some "Parameter 'name' (ICON module name) is empty."
    else if is_empty p.command_interfaces
    then some "Parameter 'command_interfaces' is empty."
    else if is_empty p.reference_and_state_interfaces
    then some "Parameter 'reference_and_state_interfaces' is empty."
    else if is_empty p.dof_names
    then some "Parameter 'dof_names' is empty."
    else check_frequency p.control_frequency_hz rate

module _ (icon : Icon) where
  open icon use {SharedMemory, Clock, Runtime}

  -- `publisher` and `timer` say whether the two pointers are set.
  pub record Controller : Type 0 where
    pub settings : Settings
    pub publisher : Bool
    pub timer : Bool
    pub clock : Option Clock
    pub runtime : Option Runtime
    pub init_error_state : Option HardwareModuleState

  abbrev Result : Type 0
  Result = Checked (CallbackReturn × Controller)

  -- `log_and_save_init_error(text); return ERROR`.
  failed : Controller → String → Result
  failed c text =
      done (CallbackReturn.error, record c { init_error_state = some (init_error text) })

  module _ (host : Host) where
    -- From the answer to `Run` on: the runtime is kept.
    finish_run : Controller → Status × Runtime → Result
    unfolding failed
    finish_run c (s, r) =
        let c' = record c { runtime = some r } in
        if is_ok s
        then done (CallbackReturn.success, c')
        else failed c' (concat ("Failed to start HWM runtime: " ∷ icon.to_string s ∷ []))

    -- From the runtime on.
    start_runtime : Controller → Expected Runtime → Result
    unfolding finish_run failed
    start_runtime c (Expected.error s) =
        failed c (concat ("Failed to create HWM runtime:  " ∷ icon.to_string s ∷ []))
    start_runtime c (value r) =
        finish_run c (icon.run host.has_realtime_kernel (map to_int c.settings.cpu_affinity) r)

    -- From the hardware module on. The control period divides by the rate.
    create_runtime : Controller → SharedMemory → Expected Hwm → Result
    unfolding start_runtime failed
    create_runtime c m (Expected.error s) =
        failed c (concat ("Failed to create HWM: " ∷ icon.to_string s ∷ []))
    create_runtime c m (value h) =
        if host.update_rate == 0
        then undefined
        else start_runtime c
            (icon.create_runtime c.settings.name (1000000000 / host.update_rate) m h)

    -- From the clock on.
    create_module : Controller → SharedMemory → Expected Clock → Result
    unfolding create_runtime failed
    create_module c m (Expected.error s) = failed c "Failed to create RealtimeClock."
    create_module c m (value k) =
        create_runtime (record c { clock = some k }) m (create (hwm_params c.settings))

    -- From the shared memory on.
    create_clock : Controller → Expected SharedMemory → Result
    unfolding create_module failed
    create_clock c (Expected.error s) =
        failed c (concat ("Failed to create SharedMemoryManager: " ∷ s.message ∷ []))
    create_clock c (value m) =
        if not c.settings.drives_realtime_clock
        then failed c "IconHwmController must be a clock driver."
        else create_module c m (icon.create_clock m)

    -- From the checks on.
    connect : Controller → Option String → Result
    unfolding create_clock failed
    connect c (some text) = failed c text
    connect c none =
        create_clock c (icon.create_shared_memory c.settings.shm_namespace c.settings.name)

    unfoldable pub on_configure : Controller → Result
    unfolding connect
    on_configure c =
        connect (record c { init_error_state = none; publisher = true; timer = true })
          (check_settings c.settings host.update_rate)

  unfoldable pub on_activate : Controller → CallbackReturn × Controller
  on_activate c = (CallbackReturn.success, c)

  unfoldable pub on_deactivate : Controller → CallbackReturn × Controller
  on_deactivate c = (CallbackReturn.success, c)

  -- The runtime is stopped, if there is one.
  stop_runtime : Controller → Option Runtime → CallbackReturn × Controller
  stop_runtime c none = (CallbackReturn.success, record c { clock = none })
  stop_runtime c (some r) =
      let (s, r') = icon.stop r in
      if is_ok s
      then (CallbackReturn.success, record c { runtime = none; clock = none })
      else (CallbackReturn.error, record c { runtime = some r' })

  -- The timer is canceled through its pointer, which must be set.
  unfoldable pub on_cleanup : Controller → Result
  unfolding stop_runtime
  on_cleanup c =
      if c.timer then done (stop_runtime (record c { timer = false }) c.runtime) else undefined

  -- The clock ticks, and is reset when it could not. `now` and `period` are nanoseconds.
  tick_clock : Controller → ℕ → ℕ → Option Clock → ReturnType × Controller
  tick_clock c now period none = (ReturnType.error, c)
  tick_clock c now period (some k) =
      let (s, k1) = icon.tick k now (now + period) in
      if is_ok s
      then (ReturnType.ok, record c { clock = some k1 })
      else (ReturnType.ok, record c { clock = some (icon.reset k1 10).1 })

  unfoldable pub update : Controller → ℕ → ℕ → ReturnType × Controller
  unfolding tick_clock
  update c now period = tick_clock c now period c.clock

  -- `PublishCurrentHwmState`: the message that is published, if one is.
  unfoldable pub current_state :
      Option HardwareModuleState → Option Runtime → Option HardwareModuleState
  current_state saved none = saved
  current_state saved (some r) = elim (icon.get_state r) [
    | Expected.error s ↦ none
    | value (code, text) ↦ some (state_message code text)
  ]

  unfoldable pub publish_current_hwm_state : Controller → Option HardwareModuleState
  unfolding current_state
  publish_current_hwm_state c = current_state c.init_error_state c.runtime
