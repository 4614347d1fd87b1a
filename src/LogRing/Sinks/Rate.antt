-- ===== src/LogRing/Sinks/Rate.antt =====
-- main/log_ring.cpp: the cap on messages for MQTT in one second.
use zhac_mono_core.Prelude.{
  ℕ, suc, ◌+◌, ◌/◌, ◌%◌, ◌^◌, ◌≡◌, ◌≢◌, refl, true, false, List, [], ◌∷◌, All, length, ap, ltb,
  ◌==◌, arith,
}
use zhac_mono_core.LogRing.Sinks.{Log, mqtt_rate_allow}

-- The state after a call at each of these times, the first first.
unfoldable pub again : List ℕ → Log → Log
again [] s = s
again (t ∷ ts) s = again ts (mqtt_rate_allow s t).0

-- A time of the second number `second`.
abbrev pub Within : ℕ → ℕ → Type 0
Within second t = t / 1000000 ≡ second

-- What a second holds: its epoch, and the calls so far in eight bits.
Counted : Log → ℕ → ℕ → Type 0
Counted s second calls = (s.rate_epoch ≡ second % 2 ^ 32) × (s.rate_count ≡ calls % 256)

one_more :
    (s : Log) (t second calls : ℕ)
    → Within second t
    → Counted s second calls
    → Counted (mqtt_rate_allow s t).0 second (suc calls)
unfolding Counted mqtt_rate_allow
one_more s t second calls w (e, c) =
    let same : (s.rate_epoch == t / 1000000 % 2 ^ 32) ≡ true = ground arith in
    rw same (e, omega arith)

many_more :
    (ts : List ℕ) (s : Log) (second calls : ℕ)
    → All (Within second) ts
    → Counted s second calls
    → Counted (again ts s) second (calls + length ts)
unfolding again
many_more [] s second calls w h = let n : calls + 0 ≡ calls = omega arith in rw n h
many_more (t ∷ ts) s second calls (w, ws) h =
    let rest =
      many_more ts (mqtt_rate_allow s t).0 second (suc calls) ws (one_more s t second calls w h) in
    let n : suc calls + length ts ≡ calls + suc (length ts) = omega arith in rw n at rest

next_allowed :
    (s : Log) (t second calls : ℕ)
    → Within second t
    → Counted s second calls
    → (mqtt_rate_allow s t).1 ≡ ltb (calls % 256) 50
unfolding Counted mqtt_rate_allow
next_allowed s t second calls w (e, c) =
    let same : (s.rate_epoch == t / 1000000 % 2 ^ 32) ≡ true = ground arith in rw (same, c) refl

-- The first call in a new second is let through. After it and any number of further calls, at any times within the
-- second, the next call within it is let through exactly when the number of calls so far in the second, the first
-- included, is below 50 modulo 256.
pub mqtt_rate_allow-second :
    (s : Log) (second first next : ℕ) (ts : List ℕ)
    → s.rate_epoch ≢ second % 2 ^ 32
    → Within second first
    → All (Within second) ts
    → Within second next
    → ((mqtt_rate_allow s first).1 ≡ true)
      × ((mqtt_rate_allow (again ts (mqtt_rate_allow s first).0) next).1
          ≡ ltb ((1 + length ts) % 256) 50)
unfolding Counted mqtt_rate_allow
mqtt_rate_allow-second s second first next ts new w ws v =
    let fresh : (s.rate_epoch == first / 1000000 % 2 ^ 32) ≡ false = ground arith in
    let start : Counted (mqtt_rate_allow s first).0 second 1 =
      rw fresh (ap (λ n. n % 2 ^ 32) w, refl) in
    let last = many_more ts (mqtt_rate_allow s first).0 second 1 ws start in
    (
      rw fresh refl,
      next_allowed (again ts (mqtt_rate_allow s first).0) next second (1 + length ts) v last,
    )
