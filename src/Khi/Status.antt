-- ===== src/Khi/Status.antt =====
-- `ToOperationalStatus` of the Kawasaki node.
pub mod Details
use Prim.Native.String.{◌++◌}
use icon_hwm_controller.Prelude.{
  ℤ, String, Bool, List, [], ◌∷◌, map, Option, none, some, if◌then◌else◌, is_empty, empty_str,
  concat, decimal_ℤ,
}
use icon_hwm_controller.OperationalStatus.{OperationalStatus, faulted, enabled}

-- The fields of khi_msgs/msg/ErrorInfo, which is not part of the repository.
pub record ErrorInfo : Type 0 where
  pub error_codes : List ℤ
  pub error_msgs : List String

-- `for (s : items) { if (!acc.empty()) acc += separator; acc += s; }`: the loop of three places.
unfoldable pub join_from : String → String → List String → String
join_from separator acc [] = acc
join_from separator acc (s ∷ ss) =
    join_from separator (if empty_str acc then s else acc ++ (separator ++ s)) ss

abbrev pub all_fine : OperationalStatus
all_fine = record { state = enabled; message = "" }

-- The messages joined, or else the codes.
unfoldable pub error_details : ErrorInfo → String
unfolding join_from
error_details e =
    let details = join_from "; " "" e.error_msgs in
    if empty_str details then join_from ", " "" (map decimal_ℤ e.error_codes) else details

unfoldable pub to_operational_status : Option ErrorInfo → OperationalStatus
to_operational_status none = all_fine
to_operational_status (some e) = if is_empty e.error_codes then all_fine else record {
  state = faulted;
  message =
      concat
        ("KHI robot error active: " ∷ error_details e ∷ ". Call clear_faults to recover." ∷ []);
}
