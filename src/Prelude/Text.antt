-- ===== src/Prelude/Text.antt =====
-- Text as the C++ standard library builds it: `std::format` of strings, and decimal numbers.
use Prim.Native.Nat.{ℕ, zero, suc, ◌/◌, ◌%◌}
use Prim.Native.Char.{code}
use Prim.Native.String.{String, ◌++◌}
use mathlib.Core.Bool.{Bool, true, false}
use mathlib.Core.List.{List}
use icon_hwm_controller.Prelude.Tests.{ltb, if◌then◌else◌}
use Prim.Native.String.append
use mathlib.Core.Path.{◌≡◌}
use icon_hwm_controller.Prelude.Int.{ℤ, pos, negsuc}

-- `std::string::empty`.
abbrev pub empty_str : String → Bool
empty_str String.[] = true
empty_str (String.◌∷◌ c s) = false

-- The pieces of a format string and its arguments, one after the other.
unfoldable pub concat : List String → String
concat List.[] = ""
concat (List.◌∷◌ s ss) = s ++ concat ss

-- The bytes of a text whose characters are ASCII.
abbrev pub codes : String → List ℕ
codes String.[] = List.[]
codes (String.◌∷◌ c s) = List.◌∷◌ (code c) (codes s)

digit : ℕ → String
digit zero = "0"
digit (suc zero) = "1"
digit (suc (suc zero)) = "2"
digit (suc (suc (suc zero))) = "3"
digit (suc (suc (suc (suc zero)))) = "4"
digit (suc (suc (suc (suc (suc zero))))) = "5"
digit (suc (suc (suc (suc (suc (suc zero)))))) = "6"
digit (suc (suc (suc (suc (suc (suc (suc zero))))))) = "7"
digit (suc (suc (suc (suc (suc (suc (suc (suc zero)))))))) = "8"
digit (suc (suc (suc (suc (suc (suc (suc (suc (suc n))))))))) = "9"

-- The fuel is the number itself plus one: each round divides by ten.
decimal_digits : ℕ → ℕ → String
decimal_digits zero n = ""
decimal_digits (suc f) n =
    let rest = decimal_digits f (n / 10) ++ digit (n % 10) in if ltb n 10 then digit n else rest

-- `std::format("{}", n)` and `std::to_string(n)` of a number and of an integer.
unfoldable pub decimal : ℕ → String
unfolding decimal_digits digit
decimal n = decimal_digits (suc n) n

unfoldable pub decimal_ℤ : ℤ → String
unfolding decimal
decimal_ℤ (pos n) = decimal n
decimal_ℤ (negsuc n) = "-" ++ decimal (suc n)

-- A text that begins with something is not empty.
pub empty_str-concat :
    (s : String) (ss : List String)
    → empty_str s ≡ false
    → empty_str (concat (List.◌∷◌ s ss)) ≡ false
unfolding concat
empty_str-concat String.[] ss h = cc
empty_str-concat (String.◌∷◌ c s) ss h = rw (append.cons c s (concat ss))
