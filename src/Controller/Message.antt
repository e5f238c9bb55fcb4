-- ===== src/Controller/Message.antt =====
-- The state message of the controller, with its text of 256 bytes.
pub mod Layout
pub mod Text
use icon_hwm_controller.Prelude.{
  ℕ, zero, suc, ◌%◌, ◌^◌, String, List, [], ◌∷◌, ◌==◌, if◌then◌else◌, replicate, set, codes,
}

-- HardwareModuleState.msg.
pub record HardwareModuleState : Type 0 where
  pub code : ℕ  -- uint8
  pub message : List ℕ  -- uint8[256]

abbrev pub message_size : ℕ
message_size = 256

abbrev pub init_failed : ℕ
init_failed = 9

-- `std::strncpy` into so many bytes: it stops at a zero and fills the rest with zeros.
unfoldable pub strncpy : ℕ → List ℕ → List ℕ
strncpy zero bytes = []
strncpy (suc n) [] = 0 ∷ strncpy n []
strncpy (suc n) (b ∷ bytes) =
    let rest = strncpy n bytes in if b == 0 then 0 ∷ replicate n 0 else b ∷ rest

-- The message that `log_and_save_init_error` keeps.
unfoldable pub init_error : String → HardwareModuleState
init_error text = record {
  code = init_failed;
  message = set (strncpy message_size (codes text)) 255 0;
}

-- `std::memcpy` of at most so many bytes over a message of zeros.
unfoldable pub memcpy : ℕ → List ℕ → List ℕ
memcpy zero bytes = []
memcpy (suc n) [] = 0 ∷ memcpy n []
memcpy (suc n) (b ∷ bytes) = b ∷ memcpy n bytes

-- The message for a state of the runtime.
unfoldable pub state_message : ℕ → List ℕ → HardwareModuleState
state_message code text = record { code = code % 2 ^ 8; message = memcpy message_size text }
