-- ===== src/Prelude/Hex/Printed.antt =====
-- strtoull reads back what `%0nx` printed.
use Prim.Native.Nat.{ℕ, zero, suc, ◌+◌, ◌*◌, ◌/◌, ◌%◌, ◌^◌, ◌<◌}
use mathlib.Core.Path.{◌≡◌, refl}
use mathlib.Core.Bool.{true, false, ◌||◌}
use mathlib.Core.List.{List, [], ◌∷◌, ◌++◌, append_assoc, append-nil}
use native.Mathlib.Omega.{arith}
use zhac_mono_core.Prelude.Tests.{ltb, ◌==◌}
use zhac_mono_core.Prelude.Lists.{All, All-append, length, length-append, take, take-append}
use zhac_mono_core.Prelude.Text.{hex_fixed}
use zhac_mono_core.Prelude.Hex.{
  hex_value, hex_digits, is_space, skip_white, skip_prefix, saturated, signed_digits, strtoull16,
}

unfoldable pub power16 : ℕ → ℕ
power16 zero = 1
power16 (suc n) = 16 * power16 n

abbrev IsHex : ℕ → Type 0
IsHex c = hex_value c < 16

module _ (digit : ℕ → ℕ) (value : (d : ℕ) → d < 16 → hex_value (digit d) ≡ d) where
  pub hex_digits-hex_fixed :
      (n v : ℕ) (rest : List ℕ)
      → v < power16 n
      → hex_digits (hex_fixed digit n v ++ rest) 0 ≡ hex_digits rest v
  unfolding power16 hex_fixed hex_digits
  hex_digits-hex_fixed zero v rest h = let z : v ≡ 0 = omega arith in rw z refl
  hex_digits-hex_fixed (suc n) v rest h =
      let d = digit (v % 16) in
      let small : v / 16 < power16 n = omega arith in
      let ih = hex_digits-hex_fixed n (v / 16) (d ∷ rest) small in
      let is : hex_value d ≡ v % 16 = value (v % 16) (omega arith) in
      let hex : ltb (hex_value d) 16 ≡ true = ground arith in
      let sum : v / 16 * 16 + hex_value d ≡ v = omega arith in
      rw (append_assoc (hex_fixed digit n (v / 16)) (d ∷ []) rest, ih) (rw (hex, sum) refl)

  pub hex_fixed-IsHex : (n v : ℕ) → All IsHex (hex_fixed digit n v)
  unfolding hex_fixed
  hex_fixed-IsHex zero v = tt
  hex_fixed-IsHex (suc n) v =
      let is = value (v % 16) (omega arith) in
      All-append IsHex (hex_fixed digit n (v / 16)) (digit (v % 16) ∷ [])
        (hex_fixed-IsHex n (v / 16)) (omega arith, tt)

not_white : (s : List ℕ) → All IsHex s → skip_white s ≡ s
unfolding skip_white is_space hex_value
not_white [] h = refl
not_white (c ∷ s) (k, h) = let no : is_space c ≡ false = ground arith in rw no refl

no_prefix : (s : List ℕ) → All IsHex s → skip_prefix s ≡ s
unfolding skip_prefix hex_value
no_prefix [] h = refl
no_prefix (a ∷ []) h = refl
no_prefix (a ∷ b ∷ []) h = refl
no_prefix (a ∷ b ∷ c ∷ s) (k, (l, h)) =
    let no : (b == b'x' || b == b'X') ≡ false = ground arith in rw no (ground arith)

unsigned : (s : List ℕ) → All IsHex s → signed_digits s ≡ saturated (hex_digits s 0)
unfolding signed_digits saturated hex_digits hex_value
unsigned [] h = refl
unsigned (c ∷ s) (k, h) =
    let minus : (c == b'-') ≡ false = ground arith in
    let plus : (c == b'+') ≡ false = ground arith in rw (minus, plus, no_prefix (c ∷ s) (k, h)) refl

-- A text of hex digits alone is read as their number.
strtoull16_digits : (s : List ℕ) → All IsHex s → strtoull16 s ≡ saturated (hex_digits s 0)
unfolding strtoull16
strtoull16_digits s h = rw (not_white s h) (unsigned s h)

pub strtoull16-hex_fixed :
    (digit : ℕ → ℕ) (value : (d : ℕ) → d < 16 → hex_value (digit d) ≡ d) (n v : ℕ)
    → v < power16 n
    → v < 2 ^ 64
    → strtoull16 (hex_fixed digit n v) ≡ v
unfolding saturated hex_digits
strtoull16-hex_fixed digit value n v h k =
    let all = hex_fixed-IsHex digit value n v in
    let read : hex_digits (hex_fixed digit n v) 0 ≡ v =
      let e = hex_digits-hex_fixed digit value n v [] h in
      rw (append-nil (hex_fixed digit n v)) at e in
    let small : ltb v (2 ^ 64) ≡ true = ground arith in
    rw (strtoull16_digits (hex_fixed digit n v) all, read, small) refl

pub length-hex_fixed : (digit : ℕ → ℕ) (n v : ℕ) → length (hex_fixed digit n v) ≡ n
unfolding hex_fixed
length-hex_fixed digit zero v = refl
length-hex_fixed digit (suc n) v = omega (
  arith,
  length-append (hex_fixed digit n (v / 16)) (digit (v % 16) ∷ []),
  length-hex_fixed digit n (v / 16),
)

-- The first digits are those of the number without its last.
pub take-hex_fixed :
    (digit : ℕ → ℕ) (n v : ℕ) → take n (hex_fixed digit (suc n) v) ≡ hex_fixed digit n (v / 16)
unfolding hex_fixed
take-hex_fixed digit n v =
    let e = take-append (hex_fixed digit n (v / 16)) (digit (v % 16) ∷ []) in
    rw (length-hex_fixed digit n (v / 16)) at e
