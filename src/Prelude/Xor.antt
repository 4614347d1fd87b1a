-- ===== src/Prelude/Xor.antt =====
-- `diff |= a ^ b` stays 0 exactly while the operands are equal.
use Prim.Native.Nat.{
  ℕ, zero, suc, ◌+◌, ◌*◌, ◌/◌, ◌%◌, ◌≤◌, max, digits, bitwise, differ, bit_xor, bit_or,
  bit_xor-bitwise, bit_or-bitwise,
}
use mathlib.Core.Path.{◌≡◌, refl}
use native.Mathlib.Omega.{arith}

-- Enough fuel for the digits of `a` is as good as more.
digits_enough :
    (z : ℕ → ℕ) (f : ℕ → ℕ → ℕ) (n m a b : ℕ) → a ≤ n → a ≤ m → digits z f n a b ≡ digits z f m a b
digits_enough z f zero zero a b h k = refl
digits_enough z f zero (suc m) zero b h k = refl
digits_enough z f zero (suc m) (suc a) b h k = absurd (omega arith)
digits_enough z f (suc n) zero zero b h k = refl
digits_enough z f (suc n) zero (suc a) b h k = absurd (omega arith)
digits_enough z f (suc n) (suc m) zero b h k = refl
digits_enough z f (suc n) (suc m) (suc a) b h k =
    rw (digits_enough z f n m (suc a / 2) (b / 2) (omega arith) (omega arith))

low_digit :
    (z : ℕ → ℕ) (f : ℕ → ℕ → ℕ) (a b : ℕ)
    → bitwise z f (suc a) b ≡ bitwise z f (suc a / 2) (b / 2) * 2 + f (suc a % 2) (b % 2)
low_digit z f a b =
    omega (arith, digits_enough z f a (suc a / 2) (suc a / 2) (b / 2) (omega arith) (omega arith))

xor_zero : (b : ℕ) → bit_xor 0 b ≡ b
xor_zero b = bit_xor-bitwise 0 b

xor_low :
    (a b : ℕ) → bit_xor (suc a) b ≡ bit_xor (suc a / 2) (b / 2) * 2 + differ (suc a % 2) (b % 2)
xor_low a b = simp bit_xor-bitwise (low_digit (λ b. b) differ a b)

or_zero : (b : ℕ) → bit_or 0 b ≡ b
or_zero b = bit_or-bitwise 0 b

or_low : (a b : ℕ) → bit_or (suc a) b ≡ bit_or (suc a / 2) (b / 2) * 2 + max (suc a % 2) (b % 2)
or_low a b = simp bit_or-bitwise (low_digit (λ b. b) max a b)

differ_eq : (x y : ℕ) → differ x y ≡ 0 → x ≡ y
differ_eq zero y h = omega arith
differ_eq (suc x) zero h = absurd (omega arith)
differ_eq (suc x) (suc y) h = omega (arith, differ_eq x y h)

differ_self : (x : ℕ) → differ x x ≡ 0
differ_self zero = refl
differ_self (suc x) = differ_self x

xor_eq_fuel : (n a b : ℕ) → a ≤ n → bit_xor a b ≡ 0 → a ≡ b
xor_eq_fuel n zero b h e = omega (arith, xor_zero b)
xor_eq_fuel zero (suc a) b h e = absurd (omega arith)
xor_eq_fuel (suc n) (suc a) b h e = omega (
  arith,
  differ_eq (suc a % 2) (b % 2) (omega (arith, xor_low a b)),
  xor_eq_fuel n (suc a / 2) (b / 2) (omega arith) (omega (arith, xor_low a b)),
)

xor_self_fuel : (n a : ℕ) → a ≤ n → bit_xor a a ≡ 0
xor_self_fuel n zero h = xor_zero 0
xor_self_fuel zero (suc a) h = absurd (omega arith)
xor_self_fuel (suc n) (suc a) h =
    omega
      (arith, xor_low a (suc a), differ_self (suc a % 2), xor_self_fuel n (suc a / 2) (omega arith))

or_eq_fuel : (n a b : ℕ) → a ≤ n → bit_or a b ≡ 0 → (a ≡ 0) × (b ≡ 0)
or_eq_fuel n zero b h e = (refl, omega (arith, or_zero b))
or_eq_fuel zero (suc a) b h e = absurd (omega arith)
or_eq_fuel (suc n) (suc a) b h e = absurd (
    omega (
      arith,
      or_low a b,
      (or_eq_fuel n (suc a / 2) (b / 2) (omega arith) (omega (arith, or_low a b))).0,
    ))

-- One step of the comparison.
pub bit_or-bit_xor_zero : (diff a b : ℕ) → bit_or diff (bit_xor a b) ≡ 0 → (diff ≡ 0) × (a ≡ b)
bit_or-bit_xor_zero diff a b h =
    let (d, x) = or_eq_fuel diff diff (bit_xor a b) (omega arith) h in
    (d, xor_eq_fuel a a b (omega arith) x)

pub bit_or-bit_xor_self : (a : ℕ) → bit_or 0 (bit_xor a a) ≡ 0
bit_or-bit_xor_self a = omega (arith, or_zero (bit_xor a a), xor_self_fuel a a (omega arith))
