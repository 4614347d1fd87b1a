-- ===== src/Auth/Lockout.antt =====
-- main/auth.cpp: the table of failed sign-ins, one bucket for each of the last 8 peers.
pub mod Stamps
pub mod Find
pub mod Blocks
pub mod Counts
use zhac_mono_core.Prelude.{
  ℕ, zero, suc, ◌+◌, ◌-◌, ◌*◌, ◌%◌, ◌^◌, Bool, true, false, ◌&&◌, not, Option, none, some, List, [],
  ◌∷◌, ltb, leb, ◌==◌, if◌then◌else◌, get_or, set, replicate,
}

abbrev pub fail_limit : ℕ
fail_limit = 5

abbrev pub fail_window_ms : ℕ
fail_window_ms = 60 * 1000

abbrev pub bucket_count : ℕ
bucket_count = 8

-- `ts` is the array of five times; `last_use_ms` 0 is a free bucket.
pub record Bucket : Type 0 where
  pub ip : ℕ
  pub ts : List ℕ
  pub head : ℕ
  pub last_use_ms : ℕ

abbrev pub no_bucket : Bucket
no_bucket = record { ip = 0; ts = replicate 5 0; head = 0; last_use_ms = 0 }

abbrev pub no_buckets : List Bucket
no_buckets = replicate 8 no_bucket

-- A take of the table's mutex: whether it succeeded within 50 ms, and now_ms() inside it.
pub record Turn : Type 0 where
  pub taken : Bool
  pub now : ℕ

-- The index of the bucket in use by `ip`.
unfoldable pub bucket_find : ℕ → List Bucket → Option ℕ
bucket_find ip [] = none
bucket_find ip (b ∷ bs) =
    let later : Option ℕ = elim (bucket_find ip bs) [ none ↦ none | some i ↦ some (suc i) ] in
    if not (b.last_use_ms == 0) && b.ip == ip then some 0 else later

-- The loop that looks for the least recent use: the best so far is bucket `best`, used at `least`.
unfoldable pub oldest_from : List Bucket → ℕ → ℕ → ℕ → ℕ
oldest_from [] i best least = best
oldest_from (b ∷ bs) i best least =
    let this = oldest_from bs (suc i) i b.last_use_ms in
    let that = oldest_from bs (suc i) best least in if ltb b.last_use_ms least then this else that

unfoldable pub oldest : List Bucket → ℕ
oldest bs = oldest_from bs 0 0 (get_or bs 0 no_bucket).last_use_ms

unfoldable pub stamp : Bucket → ℕ → Bucket
stamp b now = record b {
  last_use_ms = now;
  ts = set b.ts b.head now;
  head = (b.head + 1) % fail_limit;
}

unfoldable pub record_failure : List Bucket → ℕ → Turn → List Bucket
record_failure bs ip turn = if not turn.taken then bs else elim (bucket_find ip bs) [
  | some i ↦ set bs i (stamp (get_or bs i no_bucket) turn.now)
  | none ↦ set bs (oldest bs) (stamp (record no_bucket { ip = ip }) turn.now)
]

-- now - t in uint32_t.
unfoldable pub is_recent : ℕ → ℕ → Bool
is_recent now t = not (t == 0) && ltb ((now + 2 ^ 32 - t) % 2 ^ 32) fail_window_ms

unfoldable pub count : (ℕ → Bool) → List ℕ → ℕ
count p [] = 0
count p (t ∷ ts) = (if p t then 1 else 0) + count p ts

unfoldable pub locked : List Bucket → ℕ → Turn → Bool
locked bs ip turn =
    if not turn.taken
    then false
    else leb fail_limit (elim (bucket_find ip bs) [
      | none ↦ 0
      | some i ↦ count (is_recent turn.now) (get_or bs i no_bucket).ts
    ])
