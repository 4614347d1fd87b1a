-- ===== src/Devlist/Next/Order.antt =====
-- What devlist_next finds.
use zhac_mono_core.Prelude.{
  ℕ, zero, suc, ◌+◌, ◌≤◌, ◌<◌, ◌≡◌, refl, ◌⊎◌, inl, inr, Bool, true, Option, none, some, List, [],
  ◌∷◌, arith, get_elem?, All, Bool-cases, ltb, ◌&&◌,
}
use native.Mathlib.Nat.{zero-add}
use zhac_mono_core.Devlist.Next.{Best, consider, scan, devlist_next}

module _ {D : Type 0} (ieee_of : D → ℕ) (live : D → Bool) where
  -- `best` is at most every device that qualifies; none: no device qualifies.
  abbrev Covers : ℕ → Best → D → Type 0
  Covers after none d = live d ≡ true → ieee_of d ≤ after
  Covers after (some (i, v)) d = live d ≡ true → after < ieee_of d → v ≤ ieee_of d

  -- The new best is no worse than the old.
  abbrev Improves : Best → Best → Type 0
  Improves none s = Unit
  Improves (some (i, v)) none = ⊥
  Improves (some (i, v)) (some (j, w)) = w ≤ v

  Improves-refl : (r : Best) → Improves r r
  Improves-refl none = tt
  Improves-refl (some (i, v)) = omega arith

  Improves-trans : (r s t : Best) → Improves r s → Improves s t → Improves r t
  Improves-trans none s t h k = tt
  Improves-trans (some (i, v)) none t h k = absurd h
  Improves-trans (some (i, v)) (some (j, w)) none h k = absurd k
  Improves-trans (some (i, v)) (some (j, w)) (some (l, x)) h k = omega arith

  consider-Improves :
      (after i : ℕ) (d : D) (best : Best) → Improves best (consider ieee_of live after i d best)
  unfolding consider
  consider-Improves after i d none = tt
  consider-Improves after i d (some (j, w)) = ground arith

  consider-Covers :
      (after i : ℕ) (d : D) (best : Best) → Covers after (consider ieee_of live after i d best) d
  unfolding consider
  consider-Covers after i d none = ground arith
  consider-Covers after i d (some (j, w)) = ground arith

  Covers-Improves :
      (after : ℕ) (r s : Best) (d : D) → Improves r s → Covers after r d → Covers after s d
  Covers-Improves after none none d h c = c
  Covers-Improves after none (some (i, v)) d h c = λ l a. absurd (omega (arith, c l))
  Covers-Improves after (some (i, v)) none d h c = absurd h
  Covers-Improves after (some (i, v)) (some (j, w)) d h c = λ l a. omega (arith, c l a)

  scan-Improves :
      (after i : ℕ) (ds : List D) (best : Best) → Improves best (scan ieee_of live after i ds best)
  unfolding scan
  scan-Improves after i [] best = Improves-refl best
  scan-Improves after i (d ∷ ds) best =
      Improves-trans best (consider ieee_of live after i d best) _
        (consider-Improves after i d best)
        (scan-Improves after (suc i) ds (consider ieee_of live after i d best))

  scan-Covers :
      (after i : ℕ) (ds : List D) (best : Best)
      → All (Covers after (scan ieee_of live after i ds best)) ds
  unfolding scan
  scan-Covers after i [] best = tt
  scan-Covers after i (d ∷ ds) best =
      let best' = consider ieee_of live after i d best in
      (
        Covers-Improves after best' _ d (scan-Improves after (suc i) ds best')
            (consider-Covers after i d best),
        scan-Covers after (suc i) ds best',
      )

  -- Slot `i` of the pool that continues `ds` at index `k` holds a device of IEEE `v` that qualifies.
  abbrev Holds : ℕ → List D → ℕ → ℕ → ℕ → Type 0
  Holds after ds k i v =
      (m : ℕ) × (d : D) × (k + m ≡ i)
      × (get_elem? ds m ≡ some d)
      × (live d ≡ true)
      × (after < ieee_of d)
      × (v ≡ ieee_of d)

  abbrev Sourced : ℕ → List D → ℕ → Best → Best → Type 0
  Sourced after ds k best none = Unit
  Sourced after ds k best (some (i, v)) = (best ≡ some (i, v)) ⊎ Holds after ds k i v

  consider-Sourced :
      (after k : ℕ) (d : D) (ds : List D) (best : Best) (i v : ℕ)
      → consider ieee_of live after k d best ≡ some (i, v)
      → (best ≡ some (i, v)) ⊎ Holds after (d ∷ ds) k i v
  unfolding consider
  consider-Sourced after k d ds none i v e =
      inr (zero, d, ground arith, refl, ground arith, ground arith, ground arith)
  consider-Sourced after k d ds (some (j, w)) i v e = elim (Bool-cases (live d)) [
    | inr dead ↦ inl (ground arith)
    | inl l ↦ elim (Bool-cases (ltb after (ieee_of d) && ltb (ieee_of d) w)) [
      | inr keep ↦ inl (ground arith)
      | inl take ↦ inr (zero, d, ground arith, refl, ground arith, ground arith, ground arith)
    ]
  ]

  Sourced-step :
      (after k : ℕ) (d : D) (ds : List D) (best r : Best)
      → Sourced after ds (suc k) (consider ieee_of live after k d best) r
      → Sourced after (d ∷ ds) k best r
  Sourced-step after k d ds best none h = tt
  Sourced-step after k d ds best (some (i, v)) (inl e) = consider-Sourced after k d ds best i v e
  Sourced-step after k d ds best (some (i, v)) (inr (m, x, e, found, l, a, same)) =
      inr (suc m, x, omega arith, found, l, a, same)

  scan-Sourced :
      (after k : ℕ) (ds : List D) (best : Best)
      → Sourced after ds k best (scan ieee_of live after k ds best)
  unfolding scan
  scan-Sourced after k [] none = tt
  scan-Sourced after k [] (some (i, v)) = inl refl
  scan-Sourced after k (d ∷ ds) best =
      Sourced-step after k d ds best _
        (scan-Sourced after (suc k) ds (consider ieee_of live after k d best))

  -- The specification: the live device of least IEEE above the cursor, or none such.
  abbrev pub IsNext : List D → ℕ → Option ℕ → Type 0
  IsNext pool after none = All (λ d. live d ≡ true → ieee_of d ≤ after) pool
  IsNext pool after (some i) =
      (d : D) × (get_elem? pool i ≡ some d)
      × (live d ≡ true)
      × (after < ieee_of d)
      × All (λ e. live e ≡ true → after < ieee_of e → ieee_of d ≤ ieee_of e) pool

  found-IsNext :
      (after : ℕ) (pool : List D) (r : Best)
      → All (Covers after r) pool
      → Sourced after pool zero none r
      → IsNext pool after (elim r [ none ↦ none | some (i, v) ↦ some i ])
  found-IsNext after pool none c s = c
  found-IsNext after pool (some (i, v)) c (inl e) = absurd (cc)
  found-IsNext after pool (some (i, v)) c (inr (m, d, e, found, l, a, same)) =
      (d, rw (← e, zero-add) found, l, a, rw (← same) c)

-- devlist_next answers with the slot of a live device above the cursor that no live device above the
-- cursor undercuts, and with none exactly when no live device is above the cursor.
pub devlist_next-IsNext :
    {D : Type 0} (ieee_of : D → ℕ) (live : D → Bool) (pool : List D) (after : ℕ)
    → IsNext ieee_of live pool after (devlist_next ieee_of live pool after)
unfolding devlist_next
devlist_next-IsNext ieee_of live pool after =
    found-IsNext ieee_of live after pool _ (scan-Covers ieee_of live after zero pool none)
      (scan-Sourced ieee_of live after zero pool none)
