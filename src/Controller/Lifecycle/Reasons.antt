-- ===== src/Controller/Lifecycle/Reasons.antt =====
-- Why a configuration succeeds or fails: the reasons, each with what had gone well before it and with
-- its text.
use icon_hwm_controller.Prelude.{
  ◌/◌, ◌≡◌, ◌⊎◌, String, true, false, [], ◌∷◌, map, Option, some, concat,
}
use icon_hwm_controller.Status.{Status, is_ok, Checked, undefined, done, Expected, value}
use icon_hwm_controller.Hwm.Params.{Hwm, create}
use icon_hwm_controller.Controller.Casts.{to_int}
use icon_hwm_controller.Controller.Params.{Settings, CallbackReturn, hwm_params}
use icon_hwm_controller.Controller.Message.{HardwareModuleState, init_error}
use icon_hwm_controller.Controller.Lifecycle.Complaints.{IsAccepted, Complaint}
use icon_hwm_controller.Controller.Lifecycle.{Icon, Host, Controller}

module _ (icon : Icon) (host : Host) where
  open icon use {SharedMemory, Clock, Runtime}

  -- What has gone well: the settings are accepted, and there is a shared memory,
  pub record HasMemory (p : Settings) (m : SharedMemory) : Type 0 where
    pub accepted : IsAccepted p host.update_rate
    pub memory : icon.create_shared_memory p.shm_namespace p.name ≡ value m

  -- which the controller may drive a clock in,
  pub record HasClock (p : Settings) (m : SharedMemory) (k : Clock) : Type 0 where
    pub has_memory : HasMemory p m
    pub drives : p.drives_realtime_clock ≡ true
    pub clock : icon.create_clock m ≡ value k

  -- a hardware module,
  pub record HasModule (p : Settings) (m : SharedMemory) (k : Clock) (h : Hwm) : Type 0 where
    pub has_clock : HasClock p m k
    pub hwm : create (hwm_params p) ≡ value h

  -- and a runtime for it, with the control period in nanoseconds.
  pub record HasRuntime (p : Settings) (r : Runtime) : Type 0 where
    pub m : SharedMemory
    pub k : Clock
    pub h : Hwm
    pub has_module : HasModule p m k h
    pub runtime : icon.create_runtime p.name (1000000000 / host.update_rate) m h ≡ value r

  -- The reasons before there is a runtime, and their texts.
  pub data Cause (p : Settings) : String → Type 0 where
    complaint : {text : String} → Complaint p host.update_rate text → Cause p text
    no_memory :
        IsAccepted p host.update_rate
        → (s : Status) → icon.create_shared_memory p.shm_namespace p.name ≡ Expected.error s
        → Cause p (concat ("Failed to create SharedMemoryManager: " ∷ s.message ∷ []))
    not_driver :
        (m : SharedMemory)
        → HasMemory p m
        → p.drives_realtime_clock ≡ false
        → Cause p "IconHwmController must be a clock driver."
    no_clock :
        (m : SharedMemory)
        → HasMemory p m
        → p.drives_realtime_clock ≡ true
        → (s : Status) → icon.create_clock m ≡ Expected.error s
        → Cause p "Failed to create RealtimeClock."
    no_module :
        (m : SharedMemory) (k : Clock)
        → HasClock p m k
        → (s : Status) → create (hwm_params p) ≡ Expected.error s
        → Cause p (concat ("Failed to create HWM: " ∷ icon.to_string s ∷ []))
    no_runtime :
        (m : SharedMemory) (k : Clock) (h : Hwm)
        → HasModule p m k h
        → (s : Status)
        → icon.create_runtime p.name (1000000000 / host.update_rate) m h ≡ Expected.error s
        → Cause p (concat ("Failed to create HWM runtime:  " ∷ icon.to_string s ∷ []))

  -- The runtime that was created could not be started, and `r` is what its start left.
  pub record Unstarted (p : Settings) (text : String) (r : Runtime) : Type 0 where
    pub created : Runtime
    pub has_runtime : HasRuntime p created
    pub outcome : Status
    pub run : icon.run host.has_realtime_kernel (map to_int p.cpu_affinity) created ≡ (outcome, r)
    pub bad : is_ok outcome ≡ false
    pub words : text ≡ concat ("Failed to start HWM runtime: " ∷ icon.to_string outcome ∷ [])

  -- What an error leaves, from settings and a runtime: the text of its reason.
  pub record Explained (p : Settings) (before : Option Runtime) (c' : Controller icon)
      : Type 0 where
    pub text : String
    pub saved : c'.init_error_state ≡ some (init_error text)
    pub why :
        (Cause p text × (c'.runtime ≡ before))
        ⊎ ((r : Runtime) × Unstarted p text r × (c'.runtime ≡ some r))

  -- What a success leaves, from settings and an initialisation error: a runtime that was started.
  pub record Running (p : Settings) (before : Option HardwareModuleState) (c' : Controller icon)
      : Type 0 where
    pub created : Runtime
    pub has_runtime : HasRuntime p created
    pub outcome : Status
    pub r : Runtime
    pub run : icon.run host.has_realtime_kernel (map to_int p.cpu_affinity) created ≡ (outcome, r)
    pub good : is_ok outcome ≡ true
    pub kept : c'.runtime ≡ some r
    pub no_error : c'.init_error_state ≡ before

  abbrev pub Explains :
      Settings
      → Option Runtime
      → Option HardwareModuleState
      → Checked (CallbackReturn × Controller icon)
      → Type 0
  Explains p runtime saved undefined = Unit
  Explains p runtime saved (done (CallbackReturn.success, c')) = Running p saved c'
  Explains p runtime saved (done (CallbackReturn.error, c')) = Explained p runtime c'
