-- ===== src/Controller/Logger/Printed.antt =====
-- What the log shows of an entry.
use icon_hwm_controller.Prelude.{
  ℕ, zero, suc, ◌≤◌, ◌<◌, ◌≡◌, refl, ap, ◌⊎◌, inl, inr, ℤ, pos, negsuc, String, Bool, true, false,
  List, [], ◌∷◌, ◌++◌, none, some, arith, Bool-cases, length, take,
}
use icon_hwm_controller.Controller.Casts.{clamp_cast}
use icon_hwm_controller.Controller.Logger.{
  LoggerSeverity, RcutilsSeverity, convert_severity, LogEntry, LogCall, int_max, write_entry,
}
use icon_hwm_controller.Controller.Message.Text.{c_text}

-- "%.*s" prints up to the first zero, and no more bytes than the precision says; a negative precision
-- counts as none.
abbrev printed_with : ℤ → List ℕ → List ℕ
printed_with (pos n) bytes = c_text (take n bytes)
printed_with (negsuc n) bytes = c_text bytes

abbrev pub printed : LogCall → List ℕ
printed c = printed_with c.precision c.bytes

take-append : (n : ℕ) (xs ys : List ℕ) → n ≤ length xs → take n (xs ++ ys) ≡ take n xs
take-append zero xs ys h = refl
take-append (suc n) [] ys h = absurd (omega (arith, h))
take-append (suc n) (x ∷ xs) ys h =
    ap (λ (l : List ℕ). x ∷ l) (take-append n xs ys (omega (arith, h)))

take_all : (n : ℕ) (xs ys : List ℕ) → length xs ≤ n → take (length xs) (xs ++ ys) ≡ take n xs
take_all zero [] ys h = refl
take_all (suc n) [] ys h = refl
take_all zero (x ∷ xs) ys h = absurd (omega (arith, h))
take_all (suc n) (x ∷ xs) ys h = ap (λ (l : List ℕ). x ∷ l) (take_all n xs ys (omega (arith, h)))

-- The precision of a message of this many bytes.
precision_cases :
    (n : ℕ)
    → ((int_max < n) × (clamp_cast (negsuc int_max) (pos int_max) (pos n) ≡ pos int_max))
      ⊎ ((n ≤ int_max) × (clamp_cast (negsuc int_max) (pos int_max) (pos n) ≡ pos n))
unfolding clamp_cast
precision_cases n = ground arith

-- No byte behind the message is printed, and of the message no more than the largest `int` bytes.
printed-message :
    (msg beyond : List ℕ)
    → printed_with (clamp_cast (negsuc int_max) (pos int_max) (pos (length msg))) (msg ++ beyond)
      ≡ c_text (take int_max msg)
printed-message msg beyond = elim (precision_cases (length msg)) [
  | inl (long, at) ↦ rw at (ap c_text (take-append int_max msg beyond (omega (arith, long))))
  | inr (short, at) ↦ rw at (ap c_text (take_all int_max msg beyond short))
]

-- An entry of the ICON library is logged exactly when the logger of that name is enabled for the
-- converted severity. It then keeps its place in the source and that severity, and its text is the
-- message up to the first zero, cut after the largest `int` bytes, whatever the memory holds behind.
pub logged_text :
    (l : LoggerSeverity) (r : RcutilsSeverity) (is_enabled : String → ℕ → Bool) (name : String)
    (entry : LogEntry)
    → let severity = convert_severity l r entry.severity in
      ((is_enabled name severity ≡ false) × (write_entry l r is_enabled name entry ≡ none))
      ⊎ ((is_enabled name severity ≡ true)
          × (c : LogCall) × (write_entry l r is_enabled name entry ≡ some c)
          × (c.location ≡ entry.loc)
          × (c.severity ≡ severity)
          × (printed c ≡ c_text (take int_max entry.msg)))
unfolding write_entry
logged_text l r is_enabled name entry =
    elim (Bool-cases (is_enabled name (convert_severity l r entry.severity))) [
      | inl on ↦ rw on (inr (refl, _, refl, refl, refl, printed-message entry.msg entry.beyond))
      | inr off ↦ rw off (inl (refl, refl))
    ]
