-- ===== src/Options/Keys.antt =====
-- main/device_options.cpp: what the key of a device is read back as.
use zhac_mono_core.Prelude.{
  ℕ, ◌/◌, ◌^◌, ◌≤◌, ◌<◌, ◌≡◌, true, false, ltb, if◌then◌else◌, take, take_all, arith, ◌⊎◌, inl, inr,
}
use zhac_mono_core.Prelude.Text.{hex_digit, hex_fixed}
use zhac_mono_core.Prelude.Hex.{strtoull16, hex_value-hex_digit}
use zhac_mono_core.Prelude.Hex.Printed.{
  strtoull16-hex_fixed, length-hex_fixed, take-hex_fixed, power16,
}
use zhac_mono_core.Options.{key_for}

fitting :
    (n ieee : ℕ)
    → n ≤ 15
    → ieee < power16 n
    → ieee < 2 ^ 64
    → strtoull16 (take 15 (hex_fixed hex_digit n ieee)) ≡ ieee
fitting n ieee small h k =
    let whole =
      take_all 15 (hex_fixed hex_digit n ieee) (omega (arith, length-hex_fixed hex_digit n ieee)) in
    rw whole (strtoull16-hex_fixed hex_digit hex_value-hex_digit n ieee h k)

-- The key that device_options_restore_all reads back as a number is the IEEE address of a device below 2^60. From 2^60 on
-- the last digit of the address is cut off the key, and the number is the address divided by 16.
pub strtoull16-key_for :
    (ieee : ℕ)
    → ieee < 2 ^ 64
    → strtoull16 (key_for ieee) ≡ (if ltb ieee (2 ^ 60) then ieee else ieee / 16)
unfolding key_for power16
strtoull16-key_for ieee h =
    let cases : (ieee < 2 ^ 56) ⊎ ((2 ^ 56 ≤ ieee) × (ieee < 2 ^ 60)) ⊎ (2 ^ 60 ≤ ieee) =
      omega arith in
    elim cases [
      | inl a ↦
          let p : ltb ieee (2 ^ 56) ≡ true = ground arith in
          let q : ltb ieee (2 ^ 60) ≡ true = ground arith in
          rw (p, q) (fitting 14 ieee (omega arith) (omega arith) h)
      | inr (inl (a, b)) ↦
          let p : ltb ieee (2 ^ 56) ≡ false = ground arith in
          let q : ltb ieee (2 ^ 60) ≡ true = ground arith in
          rw (p, q) (fitting 15 ieee (omega arith) (omega arith) h)
      | inr (inr b) ↦
          let p : ltb ieee (2 ^ 56) ≡ false = ground arith in
          let q : ltb ieee (2 ^ 60) ≡ false = ground arith in
          rw (p, q, take-hex_fixed hex_digit 15 ieee)
            (strtoull16-hex_fixed hex_digit hex_value-hex_digit 15 (ieee / 16) (omega arith)
              (omega arith))
    ]
