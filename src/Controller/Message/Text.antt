-- ===== src/Controller/Message/Text.antt =====
-- Reading a published message back: what a subscriber that stops at the first zero finds.
use icon_hwm_controller.Prelude.{
  ℕ, zero, suc, ◌≡◌, refl, ap, inl, inr, String, List, [], ◌∷◌, set, take, codes, Bool-cases, ◌==◌,
  if◌then◌else◌,
}
use icon_hwm_controller.Controller.Message.{
  strncpy, init_error, memcpy, state_message, message_size,
}

-- The bytes in front of the first zero, or all of them.
abbrev pub c_text : List ℕ → List ℕ
c_text [] = []
c_text (b ∷ bytes) = if b == 0 then [] else b ∷ c_text bytes

c_text-strncpy :
    (n : ℕ) (bytes : List ℕ) → c_text (set (strncpy (suc n) bytes) n 0) ≡ take n (c_text bytes)
unfolding strncpy set
c_text-strncpy zero [] = refl
c_text-strncpy zero (b ∷ bytes) = elim (Bool-cases (b == 0)) [ inl e ↦ rw e | inr e ↦ rw e ]
c_text-strncpy (suc n) [] = refl
c_text-strncpy (suc n) (b ∷ bytes) = elim (Bool-cases (b == 0)) [
  | inl e ↦ rw e
  | inr e ↦ rw e (rw e (ap (λ (l : List ℕ). b ∷ l) (c_text-strncpy n bytes)))
]

c_text-memcpy : (n : ℕ) (bytes : List ℕ) → c_text (memcpy n bytes) ≡ take n (c_text bytes)
unfolding memcpy
c_text-memcpy zero bytes = refl
c_text-memcpy (suc n) [] = refl
c_text-memcpy (suc n) (b ∷ bytes) = elim (Bool-cases (b == 0)) [
  | inl e ↦ rw e
  | inr e ↦ rw e (ap (λ (l : List ℕ). b ∷ l) (c_text-memcpy n bytes))
]

-- What is read back from the message of an initialisation error is its text up to the first zero, cut
-- after 255 bytes, and from that of a state of the runtime its text up to the first zero, cut after
-- 256 bytes.
pub messages_read_back :
    (text : String) (code : ℕ) (bytes : List ℕ)
    → (c_text (init_error text).message ≡ take 255 (c_text (codes text)))
      × (c_text (state_message code bytes).message ≡ take message_size (c_text bytes))
unfolding init_error state_message
messages_read_back text code bytes =
    (c_text-strncpy 255 (codes text), c_text-memcpy message_size bytes)
