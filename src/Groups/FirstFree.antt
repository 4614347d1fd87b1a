-- ===== src/Groups/FirstFree.antt =====
-- grp_next_id is the lowest slot that the bitmap has free.
use zhac_mono_core.Prelude.{
  ℕ, zero, suc, ◌+◌, ◌≤◌, ◌<◌, ◌≡◌, refl, ◌⊎◌, inl, inr, true, false, arith, Bool-cases, ltb,
  ltb→lt, ltb→le, subst,
}
use zhac_mono_core.Prelude.Bits.{test_bit}
use zhac_mono_core.Groups.Storage.{Nvs, readonly}
use zhac_mono_core.Groups.{next_from, grp_next_id, grp_get_bmp}

-- Slot `n - 1` is free and all below it are taken, or `n` is 0 and all slots are taken.
abbrev pub IsFirstFree : ℕ → ℕ → ℕ → ℕ → Type 0
IsFirstFree bmp i rounds n =
    ((n ≡ 0) × ((j : ℕ) → i ≤ j → j < i + rounds → test_bit bmp j ≡ true))
    ⊎ ((k : ℕ) × (n ≡ k + 1)
        × (i ≤ k)
        × (k < i + rounds)
        × (test_bit bmp k ≡ false)
        × ((j : ℕ) → i ≤ j → j < k → test_bit bmp j ≡ true))

taken_from :
    (bmp i j : ℕ)
    → test_bit bmp i ≡ true
    → i ≤ j
    → (i + 1 ≤ j → test_bit bmp j ≡ true)
    → test_bit bmp j ≡ true
taken_from bmp i j h le later = elim (Bool-cases (ltb i j)) [
  | inl lt ↦ later (omega (arith, ltb→lt i j lt))
  | inr ge ↦ let e : i ≡ j = omega (arith, ltb→le i j ge) in subst (λ t. test_bit bmp t ≡ true) e h
]

next_from-IsFirstFree : (rounds i bmp : ℕ) → IsFirstFree bmp i rounds (next_from rounds i bmp)
unfolding next_from
next_from-IsFirstFree zero i bmp = inl (refl, λ j lo hi. absurd (omega arith))
next_from-IsFirstFree (suc rounds) i bmp = elim (Bool-cases (test_bit bmp i)) [
  | inr free ↦
      rw free (inr (i, refl, omega arith, omega arith, free, λ j lo hi. absurd (omega arith)))
  | inl taken ↦ rw taken (elim (next_from-IsFirstFree rounds (i + 1) bmp) [
    | inl (z, all) ↦ inl (z, λ j lo hi. taken_from bmp i j taken lo (λ l. all j l (omega arith)))
    | inr (k, e, lo, hi, free, all) ↦ inr (
      k,
      e,
      omega arith,
      omega arith,
      free,
      λ j lo' hi'. taken_from bmp i j taken lo' (λ l. all j l hi'),
    )
  ])
]

-- With the namespace open, grp_next_id is one more than the lowest free slot of the bitmap, and 0 when
-- all 32 slots are taken.
pub grp_next_id-IsFirstFree :
    (nvs : Nvs) (s : nvs.State)
    → nvs.nvs_open s readonly ≡ true
    → IsFirstFree (grp_get_bmp nvs s) 0 32 (grp_next_id nvs s)
unfolding grp_next_id
grp_next_id-IsFirstFree nvs s o = rw o (next_from-IsFirstFree 32 0 (grp_get_bmp nvs s))
