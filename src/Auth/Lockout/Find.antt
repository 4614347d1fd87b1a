-- ===== src/Auth/Lockout/Find.antt =====
-- main/auth.cpp: which bucket bucket_find gives after a write, and the one that is evicted.
use zhac_mono_core.Prelude.{
  ℕ, zero, suc, ◌+◌, ◌<◌, ◌≡◌, refl, ◌≢◌, ◌⊎◌, inl, inr, true, false, ◌&&◌, not, none, some, List,
  [], ◌∷◌, ltb, ◌==◌, length, set, get_or, if_cases, Option-cases, arith,
}
use zhac_mono_core.Auth.Lockout.{Bucket, no_bucket, bucket_find, oldest_from, oldest}

unfoldable pub InUse : ℕ → Bucket → Type 0
InUse ip b = (b.last_use_ms ≢ 0) × (b.ip ≡ ip)

matches : (ip : ℕ) (b : Bucket) → InUse ip b → (not (b.last_use_ms == 0) && b.ip == ip) ≡ true
unfolding InUse
matches ip b (n, e) = ground arith

find_suc :
    (ip : ℕ) (c : Bucket) (bs : List Bucket) (i : ℕ)
    → bucket_find ip (c ∷ bs) ≡ some (suc i)
    → ((not (c.last_use_ms == 0) && c.ip == ip) ≡ false) × (bucket_find ip bs ≡ some i)
unfolding bucket_find
find_suc ip c bs i h = elim (Option-cases (bucket_find ip bs)) [
  | inl e ↦ ground arith
  | inr (k, e) ↦ ground arith
]

find_none :
    (ip : ℕ) (c : Bucket) (bs : List Bucket)
    → bucket_find ip (c ∷ bs) ≡ none
    → ((not (c.last_use_ms == 0) && c.ip == ip) ≡ false) × (bucket_find ip bs ≡ none)
unfolding bucket_find
find_none ip c bs h = elim (Option-cases (bucket_find ip bs)) [
  | inl e ↦ ground arith
  | inr (k, e) ↦ ground arith
]

pub find_set :
    (ip : ℕ) (bs : List Bucket) (i : ℕ) (b : Bucket)
    → i < length bs
    → InUse ip b
    → (bucket_find ip bs ≡ none) ⊎ (bucket_find ip bs ≡ some i)
    → bucket_find ip (set bs i b) ≡ some i
unfolding bucket_find
find_set ip [] i b h u f = elim h [ ]
find_set ip (c ∷ bs) zero b h u f = rw (matches ip b u)
find_set ip (c ∷ bs) (suc i) b h u f =
    let here : ((not (c.last_use_ms == 0) && c.ip == ip) ≡ false)
        × ((bucket_find ip bs ≡ none) ⊎ (bucket_find ip bs ≡ some i)) =
      elim f [
        | inl e ↦ ((find_none ip c bs e).0, inl (find_none ip c bs e).1)
        | inr e ↦ ((find_suc ip c bs i e).0, inr (find_suc ip c bs i e).1)
      ] in
    rw (here.0, find_set ip bs i b (omega arith) u here.1)

find_zero : (ip : ℕ) (c : Bucket) (bs : List Bucket) → bucket_find ip (c ∷ bs) ≡ some 0 → InUse ip c
unfolding bucket_find InUse
find_zero ip c bs h = elim (Option-cases (bucket_find ip bs)) [
  | inl e ↦ ground arith
  | inr (k, e) ↦ ground arith
]

pub find_found :
    (ip : ℕ) (bs : List Bucket) (i : ℕ)
    → bucket_find ip bs ≡ some i
    → (i < length bs) × InUse ip (get_or bs i no_bucket)
unfolding bucket_find
find_found ip [] i h = ground arith
find_found ip (c ∷ bs) zero h = (omega arith, find_zero ip c bs h)
find_found ip (c ∷ bs) (suc i) h =
    let (lo, u) = find_found ip bs i (find_suc ip c bs i h).1 in (omega arith, u)

oldest_from_bound :
    (bs : List Bucket) (i best least : ℕ)
    → (oldest_from bs i best least ≡ best) ⊎ (oldest_from bs i best least < i + length bs)
unfolding oldest_from
oldest_from_bound [] i best least = inl refl
oldest_from_bound (b ∷ bs) i best least =
    if_cases (λ (n : ℕ). (n ≡ best) ⊎ (n < i + length (b ∷ bs))) (ltb b.last_use_ms least) _ _
      (λ e. ground (arith, oldest_from_bound bs (suc i) i b.last_use_ms))
      (λ e. ground (arith, oldest_from_bound bs (suc i) best least))

pub oldest_bound : (bs : List Bucket) → 0 < length bs → oldest bs < length bs
unfolding oldest
oldest_bound bs h = ground (arith, oldest_from_bound bs 0 0 (get_or bs 0 no_bucket).last_use_ms)
