-- ===== src/OperationalStatus.antt =====
-- The message icon_hwm_controller_msgs/msg/OperationalStatus.msg and its state constants.
use icon_hwm_controller.Prelude.{ℕ, String}

-- `state` is an uint8 and may hold any value that a publisher sends.
pub record OperationalStatus : Type 0 where
  pub state : ℕ
  pub message : String

abbrev pub unknown : ℕ
unknown = 0

abbrev pub disabled : ℕ
disabled = 1

abbrev pub faulted : ℕ
faulted = 2

abbrev pub enabled : ℕ
enabled = 3
