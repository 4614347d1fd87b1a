-- ===== src/JsonWriter/Memory.antt =====
-- The destination's memory under the writes of JsonWriter.
use zhac_mono_core.Prelude.{
  ℕ, zero, suc, ◌+◌, ◌-◌, ◌≤◌, ◌<◌, ◌≡◌, refl, sym, List, [], ◌∷◌, ◌++◌, arith, length, take, set,
  ◌==◌, Bool-cases, inl, inr, false, length-set, take_all, append_assoc, append-nil, ap, ◌∙◌,
}
use native.Mathlib.Nat.{add-zero}
use native.Mathlib.Numerals.{add-one}
use zhac_mono_core.JsonWriter.{store, vsnprintf}

pub take-set_end :
    (xs : List ℕ) (i c : ℕ) → i < length xs → take (suc i) (set xs i c) ≡ take i xs ++ c ∷ []
take-set_end [] i c h = elim h [ ]
take-set_end (x ∷ xs) zero c h = refl
take-set_end (x ∷ xs) (suc i) c h = ap (◌∷◌ x) (take-set_end xs i c (omega arith))

pub take-set_before : (xs : List ℕ) (p i c : ℕ) → p ≤ i → take p (set xs i c) ≡ take p xs
take-set_before xs zero i c h = refl
take-set_before [] (suc p) i c h = refl
take-set_before (x ∷ xs) (suc p) zero c h = absurd (omega arith)
take-set_before (x ∷ xs) (suc p) (suc i) c h = ap (◌∷◌ x) (take-set_before xs p i c (omega arith))

pub take_nothing : (xs ys : List ℕ) (p : ℕ) → xs ≡ xs ++ take (p - p) ys
take_nothing xs ys p = let e : p - p ≡ 0 = omega arith in rw e (sym (append-nil xs))

pub take_more :
    (xs s : List ℕ) (c p p' : ℕ)
    → suc p ≤ p'
    → (xs ++ c ∷ []) ++ take (p' - suc p) s ≡ xs ++ take (p' - p) (c ∷ s)
take_more xs s c p p' h =
    let e : p' - p ≡ suc (p' - suc p) = omega arith in
    rw e (append_assoc xs (c ∷ []) (take (p' - suc p) s))

pub take-append_whole : (s t : List ℕ) (k : ℕ) → take (length s + k) (s ++ t) ≡ s ++ take k t
take-append_whole [] t k = ap (λ (n : ℕ). take n t) (omega arith)
take-append_whole (x ∷ s) t k =
    let e : suc (length s) + k ≡ suc (length s + k) = omega arith in
    rw e (ap (◌∷◌ x) (take-append_whole s t k))

pub take-append_within : (s t : List ℕ) (k : ℕ) → k ≤ length s → take k (s ++ t) ≡ take k s
take-append_within s t zero h = refl
take-append_within [] t (suc k) h = elim h [ ]
take-append_within (x ∷ s) t (suc k) h = ap (◌∷◌ x) (take-append_within s t k (omega arith))

length-store : (buf : List ℕ) (pos : ℕ) (text : List ℕ) → length (store buf pos text) ≡ length buf
unfolding store
length-store buf pos [] = refl
length-store buf pos (c ∷ text) = length-store (set buf pos c) (pos + 1) text ∙ length-set buf pos c

-- The bytes before `pos` stay.
take-store_before :
    (buf : List ℕ) (p pos : ℕ) (text : List ℕ) → p ≤ pos → take p (store buf pos text) ≡ take p buf
unfolding store
take-store_before buf p pos [] h = refl
take-store_before buf p pos (c ∷ text) h =
    take-store_before (set buf pos c) p (pos + 1) text (omega arith) ∙ take-set_before buf p pos c h

-- The text stands behind them.
take-store :
    (text rest buf : List ℕ) (pos : ℕ)
    → pos + length text ≤ length buf
    → take (pos + length text) (store buf pos (text ++ rest)) ≡ take pos buf ++ text
unfolding store
take-store [] rest buf pos h =
    rw (add-zero, append-nil) (take-store_before buf pos pos rest (omega arith))
take-store (c ∷ text) rest buf pos h =
    let e : pos + suc (length text) ≡ pos + 1 + length text = omega arith in
    rw e (
      take-store text rest (set buf pos c) (pos + 1) (omega (arith, length-set buf pos c))
      ∙ rw (add-one, take-set_end buf pos c (omega arith))
          (append_assoc (take pos buf) (c ∷ []) text))

pub length-vsnprintf :
    (buf : List ℕ) (pos rem : ℕ) (text : List ℕ) → length (vsnprintf buf pos rem text) ≡ length buf
unfolding vsnprintf
length-vsnprintf buf pos rem text = elim (Bool-cases (rem == 0)) [
  | inl e ↦ rw e
  | inr e ↦ rw e (length-store buf pos (take (rem - 1) text ++ 0 ∷ []))
]

pub vsnprintf_before :
    (buf : List ℕ) (pos rem : ℕ) (text : List ℕ)
    → take pos (vsnprintf buf pos rem text) ≡ take pos buf
unfolding vsnprintf
vsnprintf_before buf pos rem text = elim (Bool-cases (rem == 0)) [
  | inl e ↦ rw e
  | inr e ↦ rw e (take-store_before buf pos pos (take (rem - 1) text ++ 0 ∷ []) (omega arith))
]

-- A text that fits with its NUL is stored whole.
pub vsnprintf_whole :
    (buf : List ℕ) (pos rem : ℕ) (text : List ℕ)
    → length text < rem
    → pos + rem ≤ length buf
    → take (pos + length text) (vsnprintf buf pos rem text) ≡ take pos buf ++ text
unfolding vsnprintf
vsnprintf_whole buf pos rem text h k =
    let e : (rem == 0) ≡ false = ground arith in
    rw (e, take_all (rem - 1) text (omega arith)) (take-store text (0 ∷ []) buf pos (omega arith))
