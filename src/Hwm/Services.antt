-- ===== src/Hwm/Services.antt =====
-- What the hardware module asks of other processes, and the two service calls
-- `CallSwitchController` and `CallSetHwState`.
use icon_hwm_controller.Prelude.{ℕ, String, Bool, List, ◌∷◌, Option, none, some, if◌then◌else◌}
use icon_hwm_controller.Status.{Status, ok_status, status, unavailable, deadline_exceeded, internal}

pub data Strictness : Type 0 where
  best_effort strict : Strictness

pub data PrimaryState : Type 0 where
  primary_state_active primary_state_inactive : PrimaryState

-- A request that leaves the module. A request counts as sent also when no answer comes in time.
pub data Event : Type 0 where
  clock_reset : ℕ → Event  -- timeout in seconds
  clear_faults_request : String → Event
  set_hw_state_request : String → PrimaryState → Event
  switch_controller_request : List String → List String → Strictness → Event

-- The requests sent so far, the newest first.
abbrev pub Trace : Type 0
Trace = List Event

pub data Client : Type 0 where
  clear_faults_client switch_controller_client set_hw_state_client : Client

pub record TriggerResponse : Type 0 where
  pub success : Bool
  pub message : String

-- The other processes, which may answer by all that they have seen. An answer is asked for when its
-- request is the newest of the trace, and is `none` when none came within the five seconds allowed.
pub record Services : Type 0 where
  pub wait_for_service : Trace → Client → Bool
  pub trigger_response : Trace → Option TriggerResponse
  pub set_hw_state_response : Trace → Option Bool
  pub switch_controller_response : Trace → Option Bool
  pub clock_response : Trace → Status

module _ (services : Services) where
  unfoldable pub call_switch_controller : List String → List String → Trace → Status × Trace
  call_switch_controller activate deactivate t =
      let t' = switch_controller_request activate deactivate best_effort ∷ t in
      if services.wait_for_service t switch_controller_client
      then (
        elim (services.switch_controller_response t') [
          | none ↦ status deadline_exceeded "SwitchController timeout"
          | some accepted ↦
              if accepted then ok_status else status internal "SwitchController failed"
        ],
        t',
      )
      else (
        status deadline_exceeded
            "SwitchController service did not become available within 1 second",
        t,
      )

  unfoldable pub call_set_hw_state : String → PrimaryState → Trace → Status × Trace
  call_set_hw_state name state t =
      let t' = set_hw_state_request name state ∷ t in
      if services.wait_for_service t set_hw_state_client
      then (
        elim (services.set_hw_state_response t') [
          | none ↦ status deadline_exceeded "SetHardwareComponentState timeout"
          | some accepted ↦
              if accepted then ok_status else status internal "SetHardwareComponentState failed"
        ],
        t',
      )
      else (status unavailable "SetHardwareComponentState service not available", t)

  -- `clock->Reset(20s)`.
  unfoldable pub reset_clock : Trace → Status × Trace
  reset_clock t = let t' = clock_reset 20 ∷ t in (services.clock_response t', t')
