-- ===== src/Prelude/Bits.antt =====
-- One bit of an unsigned word: `w & (1u << i)`, `w | (1u << i)` and `w & ~(1u << i)`, by the binary
-- digits of the word, so that their laws hold at every index.
use Prim.Native.Nat.{ℕ, zero, suc, ◌+◌, ◌*◌, ◌/◌, ◌%◌, ◌<◌, ◌^◌}
use mathlib.Core.Path.{◌≡◌, refl, ap}
use mathlib.Core.Logic.{◌≢◌}
use mathlib.Core.Bool.{Bool, true, false}
use native.Mathlib.Omega.{arith}
use native.Mathlib.Nat.{pow-suc}
use zhac_mono_core.Prelude.Tests.{◌==◌}

unfoldable pub test_bit : ℕ → ℕ → Bool
test_bit w zero = w % 2 == 1
test_bit w (suc i) = test_bit (w / 2) i

unfoldable pub set_bit : ℕ → ℕ → ℕ
set_bit w zero = w / 2 * 2 + 1
set_bit w (suc i) = set_bit (w / 2) i * 2 + w % 2

unfoldable pub clear_bit : ℕ → ℕ → ℕ
clear_bit w zero = w / 2 * 2
clear_bit w (suc i) = clear_bit (w / 2) i * 2 + w % 2

half_digit : (w b : ℕ) → b < 2 → (w * 2 + b) / 2 ≡ w
half_digit w b h = omega arith

pub test_bit-set_bit_self : (w i : ℕ) → test_bit (set_bit w i) i ≡ true
unfolding test_bit set_bit
test_bit-set_bit_self w zero = ground arith
test_bit-set_bit_self w (suc i) =
    rw (half_digit (set_bit (w / 2) i) (w % 2) (omega arith)) (test_bit-set_bit_self (w / 2) i)

pub test_bit-set_bit_ne : (w i j : ℕ) → i ≢ j → test_bit (set_bit w i) j ≡ test_bit w j
unfolding test_bit set_bit
test_bit-set_bit_ne w zero zero h = absurd (h refl)
test_bit-set_bit_ne w zero (suc j) h = rw (half_digit (w / 2) 1 (omega arith))
test_bit-set_bit_ne w (suc i) zero h = ground arith
test_bit-set_bit_ne w (suc i) (suc j) h =
    rw (half_digit (set_bit (w / 2) i) (w % 2) (omega arith))
      (test_bit-set_bit_ne (w / 2) i j (λ e. h (ap suc e)))

pub test_bit-clear_bit_self : (w i : ℕ) → test_bit (clear_bit w i) i ≡ false
unfolding test_bit clear_bit
test_bit-clear_bit_self w zero = ground arith
test_bit-clear_bit_self w (suc i) =
    rw (half_digit (clear_bit (w / 2) i) (w % 2) (omega arith)) (test_bit-clear_bit_self (w / 2) i)

pub test_bit-clear_bit_ne : (w i j : ℕ) → i ≢ j → test_bit (clear_bit w i) j ≡ test_bit w j
unfolding test_bit clear_bit
test_bit-clear_bit_ne w zero zero h = absurd (h refl)
test_bit-clear_bit_ne w zero (suc j) h = ap (λ (t : ℕ). test_bit t j) (omega arith)
test_bit-clear_bit_ne w (suc i) zero h = ground arith
test_bit-clear_bit_ne w (suc i) (suc j) h =
    rw (half_digit (clear_bit (w / 2) i) (w % 2) (omega arith))
      (test_bit-clear_bit_ne (w / 2) i j (λ e. h (ap suc e)))

-- The word stays within its width.
pub set_bit-lt : (k w i : ℕ) → i < k → w < 2 ^ k → set_bit w i < 2 ^ k
unfolding set_bit
set_bit-lt zero w i h b = elim h [ ]
set_bit-lt (suc k) w zero h b = omega (arith, pow-suc 2 k)
set_bit-lt (suc k) w (suc i) h b = omega (
  arith,
  pow-suc 2 k,
  ap (λ (t : ℕ). t) (pow-suc 2 k),
  set_bit-lt k (w / 2) i (omega arith) (omega (arith, pow-suc 2 k)),
)
