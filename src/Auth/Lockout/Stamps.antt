-- ===== src/Auth/Lockout/Stamps.antt =====
-- main/auth.cpp: the ring of five times in one bucket.
use zhac_mono_core.Prelude.{
  ℕ, zero, suc, ◌+◌, ◌≤◌, ◌<◌, ◌≡◌, refl, ◌⊎◌, inl, inr, Bool, true, List, [], ◌∷◌, if◌then◌else◌,
  length, set, length-set, arith,
}
use zhac_mono_core.Auth.Lockout.{Bucket, stamp, count}

unfoldable pub IsBucket : Bucket → Type 0
IsBucket b = (length b.ts ≡ 5) × (b.head < 5)

pub stamp-IsBucket : (b : Bucket) (now : ℕ) → IsBucket b → IsBucket (stamp b now)
unfolding IsBucket stamp
stamp-IsBucket b now (l, h) = (rw (length-set b.ts b.head now) l, omega arith)

pub count-set :
    (p : ℕ → Bool) (ts : List ℕ) (i now : ℕ)
    → count p (set ts i now) ≤ count p ts + (if p now then 1 else 0)
unfolding count
count-set p [] i now = omega arith
count-set p (t ∷ ts) zero now = omega arith
count-set p (t ∷ ts) (suc i) now = omega (arith, count-set p ts i now)

five_times : (ts : List ℕ) → length ts ≡ 5 → (a b c d e : ℕ) × (ts ≡ a ∷ b ∷ c ∷ d ∷ e ∷ [])
five_times [] h = absurd (omega arith)
five_times (a ∷ []) h = absurd (omega arith)
five_times (a ∷ b ∷ []) h = absurd (omega arith)
five_times (a ∷ b ∷ c ∷ []) h = absurd (omega arith)
five_times (a ∷ b ∷ c ∷ d ∷ []) h = absurd (omega arith)
five_times (a ∷ b ∷ c ∷ d ∷ e ∷ []) h = (a, b, c, d, e, refl)
five_times (a ∷ b ∷ c ∷ d ∷ e ∷ f ∷ ts) h = absurd (omega arith)

five_from :
    (p : ℕ → Bool) (ip used head : ℕ) (ts : List ℕ) (v w x y z : ℕ)
    → length ts ≡ 5
    → head < 5
    → p v ≡ true
    → p w ≡ true
    → p x ≡ true
    → p y ≡ true
    → p z ≡ true
    → count p
        (stamp
          (stamp
            (stamp
              (stamp (stamp (record { ip = ip; ts = ts; head = head; last_use_ms = used }) v) w)
              x)
            y)
          z).ts
      ≡ 5
unfolding stamp count
five_from p ip used head ts v w x y z l h pv pw px py pz =
    let (a, b, c, d, e, q) = five_times ts l in
    let around : (head ≡ 0) ⊎ (head ≡ 1) ⊎ (head ≡ 2) ⊎ (head ≡ 3) ⊎ (head ≡ 4) = omega arith in
    elim around [
      | inl k ↦ rw (q, k) (rw (pv, pw, px, py, pz))
      | inr (inl k) ↦ rw (q, k) (rw (pv, pw, px, py, pz))
      | inr (inr (inl k)) ↦ rw (q, k) (rw (pv, pw, px, py, pz))
      | inr (inr (inr (inl k))) ↦ rw (q, k) (rw (pv, pw, px, py, pz))
      | inr (inr (inr (inr k))) ↦ rw (q, k) (rw (pv, pw, px, py, pz))
    ]

-- Five stamps go round the whole ring.
pub five_stamps :
    (p : ℕ → Bool) (b : Bucket) (v w x y z : ℕ)
    → IsBucket b
    → p v ≡ true
    → p w ≡ true
    → p x ≡ true
    → p y ≡ true
    → p z ≡ true
    → count p (stamp (stamp (stamp (stamp (stamp b v) w) x) y) z).ts ≡ 5
unfolding IsBucket
five_stamps p b v w x y z (l, h) pv pw px py pz =
    five_from p b.ip b.last_use_ms b.head b.ts v w x y z l h pv pw px py pz
