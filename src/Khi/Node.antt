-- ===== src/Khi/Node.antt =====
-- The state of `KhiOperationalStateNode`, its callbacks, `ClearFaults` and `ClearFaultsCallback`.
pub mod Reset
use icon_hwm_controller.Prelude.{
  String, Bool, List, [], ◌∷◌, Option, none, some, if◌then◌else◌, empty_str, concat,
}
use icon_hwm_controller.Status.{
  Status, ok_status, is_ok, status, unavailable, deadline_exceeded, internal,
}
use icon_hwm_controller.OperationalStatus.{OperationalStatus}
use icon_hwm_controller.Khi.Status.{ErrorInfo, join_from, all_fine, to_operational_status}

-- What `state_mutex_` guards.
pub record Node : Type 0 where
  pub operational_status : OperationalStatus

-- The state that the constructor leaves.
unfoldable pub start : Node
start = record { operational_status = all_fine }

-- `GetOperationalStatus`.
unfoldable pub get_operational_status : Node → OperationalStatus
get_operational_status n = n.operational_status

-- `ErrorInfoCallback`: the new state and the message that is published.
unfoldable pub on_error_info : Node → ErrorInfo → Node × OperationalStatus
on_error_info n msg =
    let s = to_operational_status (some msg) in (record n { operational_status = s }, s)

-- The error messages that come in while another call waits.
unfoldable pub receive : Node → List ErrorInfo → Node
unfolding on_error_info
receive n [] = n
receive n (e ∷ es) = receive (on_error_info n e).0 es

-- `PublishOperationalStatus`, also the timer's callback.
unfoldable pub publish_operational_status : Node → Node × OperationalStatus
publish_operational_status n = (n, n.operational_status)

pub data Callback : Type 0 where
  error_info_callback : ErrorInfo → Callback
  publish_callback : Callback

unfoldable pub dispatch : Node → Callback → Node × OperationalStatus
unfolding on_error_info publish_operational_status
dispatch n (error_info_callback msg) = on_error_info n msg
dispatch n publish_callback = publish_operational_status n

pub data Event : Type 0 where
  reset_error_request : Event
  published : OperationalStatus → Event

-- What the node has sent, the newest first.
abbrev pub Trace : Type 0
Trace = List Event

pub record ResetErrorResponse : Type 0 where
  pub success : Bool
  pub error_msgs : List String

-- The driver's service; a response is `none` when it did not come within the service timeout.
pub record Services : Type 0 where
  pub service_name : String
  pub wait_for_service : Trace → Bool
  pub response : Trace → Option ResetErrorResponse

reset_failure : ResetErrorResponse → Status
reset_failure r =
    let details = join_from "; " "" r.error_msgs in
    status internal (
      concat (
        "KHI reset error service failed: "
        ∷ (if empty_str details then "unknown error" else details)
        ∷ []))

-- The answer of the node's own service.
pub record Response : Type 0 where
  pub success : Bool
  pub message : String

module _ (services : Services) where
  -- From the answer of the service on. A success forgets the error and publishes the status.
  finish : Option ResetErrorResponse → List ErrorInfo → Node → Trace → Status × Node × Trace
  unfolding reset_failure publish_operational_status
  finish none between n t = (
    status deadline_exceeded
        (concat ("Timeout waiting for service '" ∷ services.service_name ∷ "'" ∷ [])),
    n,
    t,
  )
  finish (some r) between n t =
      if r.success
      then (let n' = receive (record n { operational_status = all_fine }) between in
          (ok_status, n', published (publish_operational_status n').1 ∷ t))
      else (reset_failure r, n, t)

  -- The error callback runs beside the call: `during` came in while it waited for the service, and
  -- `between` after it had set the status and before it published.
  unfoldable pub clear_faults :
      List ErrorInfo → List ErrorInfo → Node → Trace → Status × Node × Trace
  unfolding finish
  clear_faults during between n t =
      if services.wait_for_service t
      then finish (services.response (reset_error_request ∷ t)) between (receive n during)
          (reset_error_request ∷ t)
      else (
        status unavailable
            (concat ("Service '" ∷ services.service_name ∷ "' is not available" ∷ [])),
        receive n during,
        t,
      )

  unfoldable pub clear_faults_callback :
      List ErrorInfo → List ErrorInfo → Node → Trace → Response × Node × Trace
  clear_faults_callback during between n t =
      let (s, n', t') = clear_faults during between n t in
      (
        record {
          success = is_ok s;
          message = if is_ok s then "Successfully reset KHI error." else s.message;
        },
        n',
        t',
      )
