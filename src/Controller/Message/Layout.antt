-- ===== src/Controller/Message/Layout.antt =====
-- Every message has 256 bytes, and the text of an initialisation error always ends.
use icon_hwm_controller.Prelude.{
  ℕ, zero, suc, ◌≡◌, refl, ap, ◌∙◌, inl, inr, String, List, [], ◌∷◌, some, arith, length, get_elem?,
  length-set, length-replicate, get_elem?-set_self, codes, Bool-cases, ◌==◌,
}
use icon_hwm_controller.Controller.Message.{
  strncpy, init_error, memcpy, state_message, message_size,
}

length-strncpy : (n : ℕ) (bytes : List ℕ) → length (strncpy n bytes) ≡ n
unfolding strncpy
length-strncpy zero bytes = refl
length-strncpy (suc n) [] = ap suc (length-strncpy n [])
length-strncpy (suc n) (b ∷ bytes) = elim (Bool-cases (b == 0)) [
  | inl e ↦ rw e (ap suc (length-replicate n 0))
  | inr e ↦ rw e (ap suc (length-strncpy n bytes))
]

length-memcpy : (n : ℕ) (bytes : List ℕ) → length (memcpy n bytes) ≡ n
unfolding memcpy
length-memcpy zero bytes = refl
length-memcpy (suc n) [] = ap suc (length-memcpy n [])
length-memcpy (suc n) (b ∷ bytes) = ap suc (length-memcpy n bytes)

-- The message of an initialisation error has 256 bytes, the last of them zero, whatever the length
-- of the text; that of a state of the runtime has 256 bytes too.
pub init_error_ends :
    (text : String) (code : ℕ) (bytes : List ℕ)
    → (length (init_error text).message ≡ message_size)
      × (get_elem? (init_error text).message 255 ≡ some 0)
      × (length (state_message code bytes).message ≡ message_size)
unfolding init_error state_message
init_error_ends text code bytes =
    let size = length-strncpy message_size (codes text) in
    (
      length-set (strncpy message_size (codes text)) 255 0 ∙ size,
      get_elem?-set_self (strncpy message_size (codes text)) 255 0 (omega (arith, size)),
      length-memcpy message_size bytes,
    )
