-- ===== src/Prelude/Hex.antt =====
-- strtoull(s, nullptr, 16) of the C library.
pub mod Printed
use Prim.Native.Nat.{ℕ, zero, suc, ◌+◌, ◌-◌, ◌*◌, ◌/◌, ◌%◌, ◌^◌, ◌≤◌, ◌<◌}
use mathlib.Core.Path.{◌≡◌, refl, ◌∙◌}
use mathlib.Core.Bool.{Bool, true, false, ◌&&◌, ◌||◌, not}
use mathlib.Core.Option.{Option, none, some}
use mathlib.Core.List.{List, [], ◌∷◌, ◌++◌}
use native.Mathlib.Omega.{arith}
use zhac_mono_core.Prelude.Tests.{ltb, leb, ◌==◌, if◌then◌else◌}
use zhac_mono_core.Prelude.Text.{hex_digit, hex_digit_upper, hex_fixed}

-- The value of a hex digit of either case, else 16.
unfoldable pub hex_value : ℕ → ℕ
hex_value c =
    if leb b'0' c && leb c b'9'
    then c - b'0'
    else if leb b'a' c && leb c b'f'
    then c - b'a' + 10
    else if leb b'A' c && leb c b'F'
    then c - b'A' + 10
    else 16

-- The digits at the front, read onto `v`.
unfoldable pub hex_digits : List ℕ → ℕ → ℕ
hex_digits [] v = v
hex_digits (c ∷ s) v =
    let rest = hex_digits s (v * 16 + hex_value c) in if ltb (hex_value c) 16 then rest else v

-- isspace
unfoldable pub is_space : ℕ → Bool
is_space c = c == b' ' || (leb 9 c && leb c 13)

unfoldable pub skip_white : List ℕ → List ℕ
skip_white [] = []
skip_white (c ∷ s) = let rest = skip_white s in if is_space c then rest else c ∷ s

-- A prefix 0x is skipped where a hex digit follows it.
unfoldable pub skip_prefix : List ℕ → List ℕ
skip_prefix (z ∷ x ∷ d ∷ s) =
    if z == b'0' && (x == b'x' || x == b'X') && ltb (hex_value d) 16 then d ∷ s else z ∷ x ∷ d ∷ s
skip_prefix s = s

-- Too large a number is ULLONG_MAX.
unfoldable pub saturated : ℕ → ℕ
saturated v = if ltb v (2 ^ 64) then v else 2 ^ 64 - 1

unfoldable pub negated : ℕ → ℕ
negated v = if ltb v (2 ^ 64) then (2 ^ 64 - v) % 2 ^ 64 else 2 ^ 64 - 1

unfoldable pub signed_digits : List ℕ → ℕ
signed_digits [] = 0
signed_digits (c ∷ s) =
    if c == b'-'
    then negated (hex_digits (skip_prefix s) 0)
    else if c == b'+'
    then saturated (hex_digits (skip_prefix s) 0)
    else saturated (hex_digits (skip_prefix (c ∷ s)) 0)

unfoldable pub strtoull16 : List ℕ → ℕ
strtoull16 s = signed_digits (skip_white s)

pub hex_value-hex_digit : (d : ℕ) → d < 16 → hex_value (hex_digit d) ≡ d
unfolding hex_value
hex_value-hex_digit d h = ground arith

pub hex_value-hex_digit_upper : (d : ℕ) → d < 16 → hex_value (hex_digit_upper d) ≡ d
unfolding hex_value
hex_value-hex_digit_upper d h = ground arith
