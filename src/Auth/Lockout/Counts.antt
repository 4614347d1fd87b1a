-- ===== src/Auth/Lockout/Counts.antt =====
-- main/auth.cpp: only a peer's own recent failures lock it out.
use zhac_mono_core.Prelude.{
  ℕ, zero, suc, ◌+◌, ◌≤◌, ◌<◌, ◌≡◌, refl, inl, inr, Bool, true, false, ◌&&◌, some, List, [], ◌∷◌,
  if◌then◌else◌, ◌==◌, length, set, get_or, All, Option-cases, arith,
}
use zhac_mono_core.Auth.Lockout.{
  Bucket, no_bucket, no_buckets, Turn, bucket_find, oldest, stamp, record_failure, is_recent, count,
  locked,
}
use zhac_mono_core.Auth.Lockout.Stamps.{count-set}
use zhac_mono_core.Auth.Lockout.Find.{InUse, find_found}

-- The table after a run of failures, of any peers, the latest first.
unfoldable pub after : List (ℕ × Turn) → List Bucket
after [] = no_buckets
after ((ip, turn) ∷ past) = record_failure (after past) ip turn

-- How many of them are recorded for `ip`, at a time that `p` accepts.
unfoldable pub failures : (ℕ → Bool) → ℕ → List (ℕ × Turn) → ℕ
failures p ip [] = 0
failures p ip ((i, turn) ∷ past) =
    (if turn.taken && i == ip && p turn.now then 1 else 0) + failures p ip past

module _ (p : ℕ → Bool) (p0 : p 0 ≡ false) where
  Covered : List (ℕ × Turn) → Bucket → Type 0
  Covered past b = count p b.ts ≤ failures p b.ip past

  All-get_or :
      (past : List (ℕ × Turn)) (bs : List Bucket) (i : ℕ)
      → i < length bs
      → All (Covered past) bs
      → Covered past (get_or bs i no_bucket)
  All-get_or past [] i h k = elim h [ ]
  All-get_or past (b ∷ bs) zero h (k, ks) = k
  All-get_or past (b ∷ bs) (suc i) h (k, ks) = All-get_or past bs i (omega arith) ks

  weaken :
      (event : ℕ × Turn) (past : List (ℕ × Turn)) (bs : List Bucket)
      → All (Covered past) bs
      → All (Covered (event ∷ past)) bs
  unfolding Covered failures
  weaken event past [] h = tt
  weaken event past (b ∷ bs) (k, ks) = (omega arith, weaken event past bs ks)

  All-set :
      (past : List (ℕ × Turn)) (bs : List Bucket) (i : ℕ) (b : Bucket)
      → All (Covered past) bs
      → Covered past b
      → All (Covered past) (set bs i b)
  All-set past [] i b h k = tt
  All-set past (c ∷ bs) zero b (p, h) k = (k, h)
  All-set past (c ∷ bs) (suc i) b (p, h) k = (p, All-set past bs i b h k)

  stamped :
      (past : List (ℕ × Turn)) (turn : Turn) (b : Bucket)
      → turn.taken ≡ true
      → Covered past b
      → Covered ((b.ip, turn) ∷ past) (stamp b turn.now)
  unfolding Covered failures stamp
  stamped past turn b took k = ground (arith, count-set p b.ts b.head turn.now)

  unused : (past : List (ℕ × Turn)) (ip : ℕ) → Covered past (record no_bucket { ip = ip })
  unfolding Covered count
  unused past ip = rw p0 (omega arith)

  recorded :
      (past : List (ℕ × Turn)) (bs : List Bucket) (ip : ℕ) (taken : Bool) (now : ℕ)
      → All (Covered past) bs
      → All
          (Covered ((ip, record { taken = taken; now = now }) ∷ past))
          (record_failure bs ip (record { taken = taken; now = now }))
  unfolding record_failure InUse
  recorded past bs ip false now h = weaken (ip, _) past bs h
  recorded past bs ip true now h =
      let turn : Turn = record { taken = true; now = now } in
      let others = weaken (ip, turn) past bs h in
      elim (Option-cases (bucket_find ip bs)) [
        | inl e ↦
            let b : Bucket = record no_bucket { ip = ip } in
            rw e (
              All-set ((ip, turn) ∷ past) bs (oldest bs) (stamp b now) others
                (stamped past turn b refl (unused past ip)))
        | inr (i, e) ↦
            let (lo, (z, same)) = find_found ip bs i e in
            let b = get_or bs i no_bucket in
            let one = stamped past turn b refl (All-get_or past bs i lo h) in
            rw e (All-set ((ip, turn) ∷ past) bs i (stamp b now) others (rw same at one))
      ]

  covered : (past : List (ℕ × Turn)) → All (Covered past) (after past)
  unfolding after
  covered [] = let u = unused [] 0 in (u, (u, (u, (u, (u, (u, (u, (u, tt))))))))
  covered ((ip, turn) ∷ past) = recorded past (after past) ip turn.taken turn.now (covered past)

  few :
      (past : List (ℕ × Turn)) (ip i : ℕ)
      → bucket_find ip (after past) ≡ some i
      → count p (get_or (after past) i no_bucket).ts ≤ failures p ip past
  unfolding Covered InUse
  few past ip i e =
      let (lo, (z, same)) = find_found ip (after past) i e in
      let all = All-get_or past (after past) i lo (covered past) in rw same at all

recent_zero : (now : ℕ) → is_recent now 0 ≡ false
unfolding is_recent
recent_zero now = refl

locked_found :
    (bs : List Bucket) (ip : ℕ) (turn : Turn)
    → locked bs ip turn ≡ true
    → (i : ℕ) × (bucket_find ip bs ≡ some i)
      × (5 ≤ count (is_recent turn.now) (get_or bs i no_bucket).ts)
unfolding locked
locked_found bs ip turn h = elim (Option-cases (bucket_find ip bs)) [
  | inl e ↦ absurd (let k = rw e at h in ground arith)
  | inr (i, e) ↦ (i, e, let k = rw e at h in ground arith)
]

-- Starting from the empty table, after any run of failures of any peers: a peer that is locked out has at least five
-- failures of its own that were recorded and are recent by the clock of the check.
pub locked-failures :
    (past : List (ℕ × Turn)) (ip : ℕ) (turn : Turn)
    → locked (after past) ip turn ≡ true
    → 5 ≤ failures (is_recent turn.now) ip past
locked-failures past ip turn h =
    let (i, e, many) = locked_found (after past) ip turn h in
    omega (arith, few (is_recent turn.now) (recent_zero turn.now) past ip i e)
