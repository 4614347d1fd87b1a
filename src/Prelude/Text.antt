-- ===== src/Prelude/Text.antt =====
-- Texts as lists of bytes: C strings without their closing NUL, string literals, printf's numbers.
use Prim.Native.Nat.{ℕ, zero, suc, ◌+◌, ◌-◌, ◌/◌, ◌%◌}
use Prim.Native.Char.{code}
use Prim.Native.String.{String}
use mathlib.Core.List.{List, [], ◌∷◌, ◌++◌}
use zhac_mono_core.Prelude.Tests.{ltb, if◌then◌else◌}

-- The bytes of an ASCII literal.
abbrev pub bytes : String → List ℕ
bytes String.[] = []
bytes (String.◌∷◌ c s) = code c ∷ bytes s

-- One digit of `%x` and of `%X`.
abbrev pub hex_digit : ℕ → ℕ
hex_digit d = if ltb d 10 then b'0' + d else b'a' - 10 + d

abbrev pub hex_digit_upper : ℕ → ℕ
hex_digit_upper d = if ltb d 10 then b'0' + d else b'A' - 10 + d

-- `%0nx`: the low `n` digits, most significant first.
unfoldable pub hex_fixed : (ℕ → ℕ) → ℕ → ℕ → List ℕ
hex_fixed digit zero v = []
hex_fixed digit (suc n) v = hex_fixed digit n (v / 16) ++ digit (v % 16) ∷ []

-- `%u`: the decimal digits, on fuel; twenty digits hold every 64-bit value.
unfoldable pub decimal_fuel : ℕ → ℕ → List ℕ
decimal_fuel zero v = []
decimal_fuel (suc f) v =
    let higher = decimal_fuel f (v / 10) in
    if ltb v 10 then (b'0' + v) ∷ [] else higher ++ (b'0' + v % 10) ∷ []

unfoldable pub decimal : ℕ → List ℕ
unfolding decimal_fuel
decimal v = decimal_fuel 20 v
