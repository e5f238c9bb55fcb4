-- ===== src/Controller/Casts.antt =====
-- The integer conversions of the controller.
use icon_hwm_controller.Prelude.{
  ℕ, ◌-◌, ◌%◌, ◌^◌, ℤ, pos, negsuc, ltb_ℤ, ◌≤ℤ◌, arith, ltb, if◌then◌else◌,
}

-- `clamp_cast` to a type whose limits are `lowest` and `highest`.
unfoldable pub clamp_cast : ℤ → ℤ → ℤ → ℤ
clamp_cast lowest highest v =
    if ltb_ℤ highest v then highest else if ltb_ℤ v lowest then lowest else v

-- The result is within the limits of the type, and a value within them is kept.
pub clamp_cast_limits :
    (lowest highest v : ℤ)
    → lowest ≤ℤ highest
    → (lowest ≤ℤ clamp_cast lowest highest v) × (clamp_cast lowest highest v ≤ℤ highest)
unfolding clamp_cast
clamp_cast_limits lowest highest v h = ground arith

-- `static_cast<unsigned int>` of a number above zero.
unfoldable pub to_unsigned : ℕ → ℕ
to_unsigned n = n % 2 ^ 32

-- The narrowing of an `int64_t` to an `int`.
unfoldable pub to_int : ℤ → ℤ
to_int (pos n) = let r = n % 2 ^ 32 in if ltb r (2 ^ 31) then pos r else negsuc (2 ^ 32 - 1 - r)
to_int (negsuc n) = let r = n % 2 ^ 32 in if ltb r (2 ^ 31) then negsuc r else pos (2 ^ 32 - 1 - r)
