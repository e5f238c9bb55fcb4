-- ===== src/Status.antt =====
-- The status values that the program's operations return: a code and a message. The types stand in
-- the ICON library; this is the part of them that the program names (`Status{code, message}`,
-- `ok()`, `OkStatus()`). A real-time status is modelled by the same record.
use icon_hwm_controller.Prelude.{ℕ, String, Bool, true, false, ◌≡◌, ◌≢◌, ◌⊎◌, inl, inr, refl}

-- `StatusCode`: the codes that the program writes, and any other that a callee may return.
pub data StatusCode : Type 0 where
  ok invalid_argument unavailable deadline_exceeded internal failed_precondition : StatusCode
  other : ℕ → StatusCode

pub record Status : Type 0 where
  pub code : StatusCode
  pub message : String

abbrev pub is_ok_code : StatusCode → Bool
is_ok_code StatusCode.ok = true
is_ok_code _ = false

abbrev pub is_ok : Status → Bool
is_ok s = is_ok_code s.code

abbrev pub ok_status : Status
ok_status = record { code = StatusCode.ok; message = "" }

abbrev pub status : StatusCode → String → Status
status c m = record { code = c; message = m }

-- A computation that may step outside the language's defined behaviour, as an access out of range.
pub data Checked {ℓ} (A : Type ℓ) : Type ℓ where
  undefined : Checked A
  done : A → Checked A

-- `tl::expected`.
pub data Expected {ℓ} (A : Type ℓ) : Type ℓ where
  value : A → Expected A
  error : Status → Expected A

pub Checked-total {ℓ} : {A : Type ℓ} (c : Checked A) → c ≢ undefined → (a : A) × (c ≡ done a)
Checked-total undefined h = absurd (h refl)
Checked-total (done a) h = (a, refl)

pub Expected-cases {ℓ} :
    {A : Type ℓ} (e : Expected A) → ((s : Status) × (e ≡ error s)) ⊎ ((a : A) × (e ≡ value a))
Expected-cases (value a) = inr (a, refl)
Expected-cases (error s) = inl (s, refl)
