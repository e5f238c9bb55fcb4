-- ===== src/Fanuc/Recovery.antt =====
-- `ClearFaults` and `ClearFaultsCallback` of the FANUC node.
pub mod Authority
use icon_hwm_controller.Prelude.{
  ℕ, ℤ, pos, String, Bool, List, [], ◌∷◌, Option, none, some, ◌==◌, eqb_ℤ, if◌then◌else◌, concat,
  decimal_ℤ,
}
use icon_hwm_controller.Status.{
  Status, ok_status, is_ok, status, unavailable, deadline_exceeded, internal,
}

pub data Client : Type 0 where
  reset_client switch_control_state_client : Client

pub data Event : Type 0 where
  reset_request : Event
  slept : ℕ → Event  -- milliseconds
  switch_control_state_request : ℕ → Event

-- What the node has sent and done, the newest first.
abbrev pub Trace : Type 0
Trace = List Event

-- The driver's services, which may answer by all that they have seen. A response is its `result`
-- code, and `none` when it did not come within the service timeout.
pub record Services : Type 0 where
  pub service_name : Client → String
  pub wait_for_service : Trace → Client → Bool
  pub response : Trace → Option ℤ

-- The answer of the node's own service.
pub record Response : Type 0 where
  pub success : Bool
  pub message : String

module _ (services : Services) where
  -- The two calls have one shape: wait for the service, send, wait for the answer, look at its code.
  unfoldable pub call : Client → Event → String → Trace → Status × Trace
  call client request failed t =
      if services.wait_for_service t client
      then (
        elim (services.response (request ∷ t)) [
          | none ↦
              status deadline_exceeded
                (concat ("Timeout waiting for service '" ∷ services.service_name client ∷ "'" ∷ []))
          | some result ↦
              if eqb_ℤ result (pos 0)
              then ok_status
              else status internal (concat (failed ∷ decimal_ℤ result ∷ []))
        ],
        request ∷ t,
      )
      else (
        status unavailable
            (concat ("Service '" ∷ services.service_name client ∷ "' is not available" ∷ [])),
        t,
      )

  -- The request's status 1 gives motion control to the ROS 2 driver.
  unfoldable pub clear_faults : Trace → Status × Trace
  clear_faults t =
      let (s, t') = call reset_client reset_request "Reset service failed with error code: " t in
      if is_ok s
      then call switch_control_state_client (switch_control_state_request 1)
          "Switching control state failed with error code: " (slept 200 ∷ t')
      else (s, t')

  unfoldable pub clear_faults_callback : Trace → Response × Trace
  clear_faults_callback t =
      let (s, t') = clear_faults t in
      (
        record {
          success = is_ok s;
          message =
              if is_ok s
              then "Successfully reset alarms and restored ROS 2 motion control."
              else s.message;
        },
        t',
      )
