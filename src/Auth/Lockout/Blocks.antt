-- ===== src/Auth/Lockout/Blocks.antt =====
-- main/auth.cpp: five failures within the window shut a peer out.
use zhac_mono_core.Prelude.{
  ℕ, zero, suc, ◌+◌, ◌^◌, ◌≤◌, ◌<◌, ◌≡◌, refl, ◌≢◌, ◌⊎◌, inl, inr, true, none, some, List, [], ◌∷◌,
  length, set, length-set, get_or, get_or-set_self, All, Option-cases, arith,
}
use zhac_mono_core.Auth.Lockout.{
  Bucket, no_bucket, Turn, bucket_find, oldest, stamp, record_failure, is_recent, count, locked,
}
use zhac_mono_core.Auth.Lockout.Find.{InUse, find_set, find_found, oldest_bound}
use zhac_mono_core.Auth.Lockout.Stamps.{IsBucket, stamp-IsBucket, five_stamps}

-- The table: eight buckets.
unfoldable pub IsTable : List Bucket → Type 0
IsTable bs = (length bs ≡ 8) × All IsBucket bs

abbrev fresh : ℕ → Bucket
fresh ip = record no_bucket { ip = ip }

-- The bucket of `ip`: the one in use, else the one that a failure puts there.
unfoldable pub bucket_of : ℕ → List Bucket → Bucket
bucket_of ip bs = elim (bucket_find ip bs) [
  | none ↦ record no_bucket { ip = ip }
  | some i ↦ get_or bs i no_bucket
]

All-set :
    (bs : List Bucket) (i : ℕ) (b : Bucket)
    → All IsBucket bs
    → IsBucket b
    → All IsBucket (set bs i b)
All-set [] i b h k = tt
All-set (c ∷ bs) zero b (p, h) k = (k, h)
All-set (c ∷ bs) (suc i) b (p, h) k = (p, All-set bs i b h k)

All-get_or : (bs : List Bucket) (i : ℕ) → All IsBucket bs → IsBucket (get_or bs i no_bucket)
unfolding IsBucket
All-get_or [] i h = (refl, omega arith)
All-get_or (c ∷ bs) zero (p, h) = p
All-get_or (c ∷ bs) (suc i) (p, h) = All-get_or bs i h

pub bucket_of-IsBucket : (ip : ℕ) (bs : List Bucket) → IsTable bs → IsBucket (bucket_of ip bs)
unfolding bucket_of IsTable IsBucket
bucket_of-IsBucket ip bs (l, h) = elim (Option-cases (bucket_find ip bs)) [
  | inl e ↦ rw (e, bucket_of) (refl, omega arith)
  | inr (i, e) ↦ rw (e, bucket_of) (All-get_or bs i h)
]

stored :
    (ip : ℕ) (bs : List Bucket) (i : ℕ) (b : Bucket)
    → i < length bs
    → InUse ip b
    → (bucket_find ip bs ≡ none) ⊎ (bucket_find ip bs ≡ some i)
    → bucket_of ip (set bs i b) ≡ b
unfolding bucket_of
stored ip bs i b h u f =
    rw (find_set ip bs i b h u f, bucket_of) (get_or-set_self bs i b no_bucket h)

of_none : (ip : ℕ) (bs : List Bucket) → bucket_find ip bs ≡ none → bucket_of ip bs ≡ fresh ip
unfolding bucket_of
of_none ip bs e = rw (e, bucket_of) refl

of_some :
    (ip : ℕ) (bs : List Bucket) (i : ℕ)
    → bucket_find ip bs ≡ some i
    → bucket_of ip bs ≡ get_or bs i no_bucket
unfolding bucket_of
of_some ip bs i e = rw (e, bucket_of) refl

found_case :
    (bs : List Bucket) (ip : ℕ) (now i : ℕ)
    → IsTable bs
    → now ≢ 0
    → bucket_find ip bs ≡ some i
    → IsTable (set bs i (stamp (get_or bs i no_bucket) now))
      × (bucket_of ip (set bs i (stamp (get_or bs i no_bucket) now))
          ≡ stamp (get_or bs i no_bucket) now)
unfolding IsTable InUse stamp
found_case bs ip now i (l, h) n e =
    let b = get_or bs i no_bucket in
    let (lo, (z, same)) = find_found ip bs i e in
    (
      (
        rw (length-set bs i (stamp b now)) l,
        All-set bs i (stamp b now) h (stamp-IsBucket b now (All-get_or bs i h)),
      ),
      stored ip bs i (stamp b now) lo (n, same) (inr e),
    )

new_case :
    (bs : List Bucket) (ip : ℕ) (now : ℕ)
    → IsTable bs
    → now ≢ 0
    → bucket_find ip bs ≡ none
    → IsTable (set bs (oldest bs) (stamp (fresh ip) now))
      × (bucket_of ip (set bs (oldest bs) (stamp (fresh ip) now)) ≡ stamp (fresh ip) now)
unfolding IsTable InUse stamp IsBucket
new_case bs ip now (l, h) n e =
    let b = stamp (fresh ip) now in
    (
      (
        rw (length-set bs (oldest bs) b) l,
        All-set bs (oldest bs) b h (stamp-IsBucket (fresh ip) now (refl, omega arith)),
      ),
      stored ip bs (oldest bs) b (oldest_bound bs (omega arith)) (n, refl) (inl e),
    )

-- One failure recorded at a time other than 0 stamps the peer's bucket and keeps the table a table.
pub record_failure-bucket :
    (bs : List Bucket) (ip : ℕ) (turn : Turn)
    → IsTable bs
    → turn.taken ≡ true
    → turn.now ≢ 0
    → IsTable (record_failure bs ip turn)
      × (bucket_of ip (record_failure bs ip turn) ≡ stamp (bucket_of ip bs) turn.now)
unfolding record_failure
record_failure-bucket bs ip turn t took n = elim (Option-cases (bucket_find ip bs)) [
  | inl e ↦ rw (took, e, of_none ip bs e) (new_case bs ip turn.now t n e)
  | inr (i, e) ↦ rw (took, e, of_some ip bs i e) (found_case bs ip turn.now i t n e)
]

unfoldable pub Timely : Turn → Turn → Type 0
Timely last turn =
    (turn.taken ≡ true)
    × (0 < turn.now)
    × (turn.now ≤ last.now)
    × (last.now < turn.now + 60000)
    × (last.now < 2 ^ 32)

timely : (last turn : Turn) → Timely last turn → is_recent last.now turn.now ≡ true
unfolding Timely is_recent
timely last turn (took, lo, le, win, hi) = ground arith

locked-count :
    (bs : List Bucket) (ip : ℕ) (turn : Turn)
    → turn.taken ≡ true
    → count (is_recent turn.now) (bucket_of ip bs).ts ≡ 5
    → locked bs ip turn ≡ true
unfolding locked count is_recent
locked-count bs ip turn took h = elim (Option-cases (bucket_find ip bs)) [
  | inl e ↦ absurd (let k = rw (of_none ip bs e) at h in omega arith)
  | inr (i, e) ↦ rw (took, e, rw (of_some ip bs i e) at h) refl
]

stamped :
    (bs : List Bucket) (ip : ℕ) (last turn : Turn)
    → IsTable bs
    → Timely last turn
    → IsTable (record_failure bs ip turn)
      × (bucket_of ip (record_failure bs ip turn) ≡ stamp (bucket_of ip bs) turn.now)
unfolding Timely
stamped bs ip last turn t (took, lo, _, _, _) =
    record_failure-bucket bs ip turn t took (omega arith)

-- After five failures of a peer, recorded in a row at times within the last minute, the peer is locked out; the table is
-- any table of eight buckets, the clock does not wrap in between, and each of the six turns takes the mutex.
pub record_failure-locked :
    (bs : List Bucket) (ip : ℕ) (v w x y z last : Turn)
    → IsTable bs
    → last.taken ≡ true
    → Timely last v
    → Timely last w
    → Timely last x
    → Timely last y
    → Timely last z
    → locked
        (record_failure
          (record_failure (record_failure (record_failure (record_failure bs ip v) ip w) ip x) ip y)
          ip
          z)
        ip
        last
      ≡ true
record_failure-locked bs ip v w x y z last t took v' w' x' y' z' =
    let (t1, e1) = stamped bs ip last v t v' in
    let (t2, e2) = stamped _ ip last w t1 w' in
    let (t3, e3) = stamped _ ip last x t2 x' in
    let (t4, e4) = stamped _ ip last y t3 y' in
    let (t5, e5) = stamped _ ip last z t4 z' in
    locked-count _ ip last took (
      rw (e5, e4, e3, e2, e1)
        (five_stamps (is_recent last.now) (bucket_of ip bs) v.now w.now x.now y.now z.now
          (bucket_of-IsBucket ip bs t) (timely last v v') (timely last w w') (timely last x x')
          (timely last y y') (timely last z z')))
