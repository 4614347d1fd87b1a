-- ===== src/Devlist/Next.antt =====
-- main/devlist_page.h, devlist_next: the live device with the smallest IEEE above a cursor.
pub mod Order
use zhac_mono_core.Prelude.{
  ℕ, zero, suc, ◌+◌, ◌≤◌, ◌<◌, ◌≡◌, refl, ◌≢◌, ◌⊎◌, inl, inr, Bool, true, false, ◌&&◌, ◌||◌, not,
  Option, none, some, List, [], ◌∷◌, arith, ltb, ==_iff, if◌then◌else◌, Bool-cases, Option-cases,
  length, get_elem?, All, ltb→lt, ltb→le, ◌++◌,
}

-- `best` is the slot index and `best_ieee` its IEEE; none stands for best < 0.
abbrev pub Best : Type 0
Best = Option (ℕ × ℕ)

abbrev beats : ℕ → Best → Bool
beats v none = true
beats v (some (i, b)) = ltb v b

module _ {ℓ} {D : Type ℓ} (ieee_of : D → ℕ) (live : D → Bool) where
  -- One round of the loop, for slot `i`.
  consider : ℕ → ℕ → D → Best → Best
  consider after i d best =
      if not (live d)
      then best
      else if ltb after (ieee_of d) && beats (ieee_of d) best
      then some (i, ieee_of d)
      else best

  scan : ℕ → ℕ → List D → Best → Best
  scan after i [] best = best
  scan after i (d ∷ ds) best = scan after (suc i) ds (consider after i d best)

  -- The slot, or none for -1.
  unfoldable pub devlist_next : List D → ℕ → Option ℕ
  unfolding scan consider
  devlist_next pool after = elim (scan after 0 pool none) [ none ↦ none | some (i, v) ↦ some i ]
