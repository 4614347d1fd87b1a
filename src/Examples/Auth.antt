-- ===== src/Examples/Auth.antt =====
-- Examples of the sign-in: a hub with a token and a password, its peers and its restarts.
use zhac_mono_core.Prelude.{
  ℕ, ◌≡◌, refl, ◌≢◌, ◌⊎◌, ◌↔◌, ◌≤◌, ◌<◌, Bool, true, false, Option, none, some, List, [], ◌∷◌,
  length, replicate, arith,
}
use zhac_mono_core.Prelude.Text.{bytes}
use zhac_mono_core.Auth.Lockout.{Bucket, no_buckets, Turn, record_failure, locked, is_recent}
use zhac_mono_core.Auth.Lockout.Stamps.{IsBucket}
use zhac_mono_core.Auth.Lockout.Blocks.{IsTable, Timely, record_failure-locked}
use zhac_mono_core.Auth.Lockout.Counts.{after, failures, locked-failures}
use zhac_mono_core.Auth.State.{Auth, failed, set_api_token, fd_deauth_all}
use zhac_mono_core.Auth.Token.{new_token, check_request, auth_rotate_token, persist_token}
use zhac_mono_core.Auth.Token.Gate.{Verdict, check_request-Verdict}
use zhac_mono_core.Auth.Password.{kdf, password_store, password_check, keep_password}
use zhac_mono_core.Auth.Password.Round.{password_check-store}
use zhac_mono_core.Auth.Requests.{Request, Doc, read_json, receive, reply, send_token, unauthorized}
use zhac_mono_core.Auth.Routes.{handle_login, handle_setup, setup_body, setup_with, password_route}
use zhac_mono_core.Auth.Routes.Login.{handle_login-outcome}
use zhac_mono_core.Auth.Routes.Setup.{Claimed, handle_setup-claims}
use zhac_mono_core.Auth.Routes.Change.{SameSecrets, Knows, password_route-guard}
use zhac_mono_core.Auth.Boot.{auth_init}
use zhac_mono_core.Auth.Boot.Restart.{auth_init-password_store, auth_rotate_token-restart}
use zhac_mono_core.Auth.Boot.Fault.{Attempt, setup, change, attempts, auth_init-fault}
use zhac_mono_core.Examples.AuthFlash.{
  auth_nvs, auth_nvs-IsNvs, Namespace, empty_namespace, digest, sha256, kdf-digest,
}

abbrev at_ms : ℕ → Turn
at_ms n = record { taken = true; now = n }

empty-IsTable : IsTable no_buckets
unfolding IsTable IsBucket
empty-IsTable =
    let zeros : List ℕ = replicate 5 0 in
    let b : (length zeros ≡ 5) × (0 < 5) = (refl, omega arith) in
    (refl, (b, (b, (b, (b, (b, (b, (b, (b, tt)))))))))

soon : (n : ℕ) → 0 < n → n ≤ 100 → Timely (at_ms 100) (at_ms n)
unfolding Timely
soon n h k = (refl, h, k, omega arith, omega arith)

record_failure-locked_example :
    locked
      (record_failure
        (record_failure
          (record_failure
            (record_failure (record_failure no_buckets 9 (at_ms 10)) 9 (at_ms 20))
            9
            (at_ms 30))
          9
          (at_ms 40))
        9
        (at_ms 50))
      9
      (at_ms 100)
    ≡ true
record_failure-locked_example =
    record_failure-locked no_buckets 9 (at_ms 10) (at_ms 20) (at_ms 30) (at_ms 40) (at_ms 50)
      (at_ms 100) empty-IsTable refl (soon 10 (omega arith) (omega arith))
      (soon 20 (omega arith) (omega arith)) (soon 30 (omega arith) (omega arith))
      (soon 40 (omega arith) (omega arith)) (soon 50 (omega arith) (omega arith))

abbrev five_failures : List (ℕ × Turn)
five_failures = (9, at_ms 50) ∷ (9, at_ms 40) ∷ (9, at_ms 30) ∷ (9, at_ms 20) ∷ (9, at_ms 10) ∷ []

locked-failures_example : 5 ≤ failures (is_recent 100) 9 five_failures
unfolding after
locked-failures_example = locked-failures five_failures 9 (at_ms 100) record_failure-locked_example

abbrev api_token : List ℕ
api_token = bytes "0123456789abcdef0123456789abcdef"

-- A hub with sign-in on, no password yet.
abbrev fresh_hub : (opens : Bool) → Auth Namespace
fresh_hub opens = record {
  s_token = api_token;
  s_enabled = true;
  s_storage_error = false;
  s_buckets = no_buckets;
  s_salt = [];
  s_hash = [];
  s_pw_set = false;
  flash = empty_namespace;
  effects = [];
}

abbrev claimed_hub : Auth Namespace
claimed_hub = record (fresh_hub true) { s_salt = replicate 16 1; s_hash = digest; s_pw_set = true }

-- One body, whatever its bytes: it has the members "password" and "new".
abbrev parse : List ℕ → Option Doc
parse buf = some (λ k. some (bytes "secret123"))

abbrev request : Request
request = record {
  peer_ipv4 = 9;
  api_key = some api_token;
  content_len = 2;
  chunks = bytes "{" ∷ bytes "}" ∷ [];
}

read : (cap : ℕ) → 2 < cap → read_json parse request cap ≡ some (λ k. some (bytes "secret123"))
unfolding read_json receive
read cap h = ground arith

check_request-Verdict_example :
    Verdict claimed_hub 9 none
      (at_ms 10)
      (at_ms 20)
      (check_request claimed_hub 9 none (at_ms 10) (at_ms 20))
check_request-Verdict_example =
    check_request-Verdict claimed_hub 9 none (at_ms 10) (at_ms 20) refl refl

store_ok :
    (password_store sha256 (auth_nvs true) (fresh_hub true) (bytes "secret123") (replicate 16 1)).1
    ≡ true
unfolding password_store keep_password zhac_mono_core.Auth.Password.persist_password
store_ok = rw (kdf-digest (bytes "secret123") (replicate 16 1) refl) refl

free : locked no_buckets 9 (at_ms 10) ≡ false
unfolding locked zhac_mono_core.Auth.Lockout.bucket_find
free = refl

password_check-store_example :
    let b =
      (password_store sha256
        (auth_nvs true)
        (fresh_hub true)
        (bytes "secret123")
        (replicate 16 1)).0 in
    (8 ≤ 9)
    × (9 ≤ 63)
    × (password_check sha256 b 9 (bytes "secret123") (at_ms 10) (at_ms 20) ≡ (b, true))
    × (((password_check sha256 b 9 (bytes "x") (at_ms 10) (at_ms 20)).1 ≡ true) ↔ (
        (0 < 1)
        × (kdf sha256 (bytes "x") (replicate 16 1)
            ≡ kdf sha256 (bytes "secret123") (replicate 16 1))))
password_check-store_example =
    password_check-store sha256 (auth_nvs true) (fresh_hub true) (bytes "secret123")
      (replicate 16 1) (bytes "x") 9 (at_ms 10) (at_ms 20) store_ok free

handle_login-outcome_example :
    let out = handle_login (auth_nvs true) sha256 parse claimed_hub request (at_ms 10) (at_ms 20) in
    let right = (0 < 9) × (kdf sha256 (bytes "secret123") (replicate 16 1) ≡ some digest) in
    let shut = locked no_buckets 9 (at_ms 10) in
    ((shut ≡ false) × right × (out ≡ (claimed_hub, send_token api_token)))
    ⊎ ((shut ≡ false) × (right → ⊥) × (out ≡ (failed claimed_hub 9 (at_ms 20), unauthorized)))
    ⊎ ((shut ≡ true) × (out ≡ (claimed_hub, unauthorized)))
handle_login-outcome_example =
    handle_login-outcome (auth_nvs true) sha256 parse claimed_hub request (at_ms 10) (at_ms 20)
      (λ k. some (bytes "secret123")) (bytes "secret123") (read 192 (omega arith)) refl refl refl
      refl

set_up :
    (handle_setup
      (auth_nvs true)
      sha256
      parse
      (fresh_hub true)
      true
      request
      (replicate 16 1)).0.s_pw_set
    ≡ true
unfolding handle_setup setup_body setup_with password_store keep_password
    zhac_mono_core.Auth.Password.persist_password read_json receive
set_up = rw (kdf-digest (bytes "secret123") (replicate 16 1) refl) refl

handle_setup-claims_example :
    (false ≡ false)
    × (true ≡ true)
    × Claimed
        (auth_nvs true)
        sha256
        parse
        (fresh_hub true)
        request
        (replicate 16 1)
        (handle_setup (auth_nvs true) sha256 parse (fresh_hub true) true request (replicate 16 1))
handle_setup-claims_example =
    handle_setup-claims (auth_nvs true) sha256 parse (fresh_hub true) true request (replicate 16 1)
      refl set_up

password_route-guard_example :
    SameSecrets claimed_hub
      (password_route
        (auth_nvs true)
        sha256
        parse
        claimed_hub
        request
        (at_ms 10)
        (at_ms 20)
        (at_ms 30)
        (at_ms 40)
        (replicate 16 1)
        (replicate 16 2)).0
    ⊎ ((some api_token ≡ some api_token)
        × (locked no_buckets 9 (at_ms 10) ≡ false)
        × Knows (auth_nvs true) sha256 parse claimed_hub request)
password_route-guard_example =
    password_route-guard (auth_nvs true) sha256 parse claimed_hub request (at_ms 10) (at_ms 20)
      (at_ms 30) (at_ms 40) (replicate 16 1) (replicate 16 2) refl refl refl refl

auth_init-password_store_example :
    let b =
      auth_init
        (auth_nvs true)
        true
        (password_store sha256
          (auth_nvs true)
          (fresh_hub true)
          (bytes "secret123")
          (replicate 16 1)).0.flash
        (replicate 16 3) in
    (b.s_pw_set ≡ true)
    × (b.s_salt ≡ replicate 16 1)
    × (kdf sha256 (bytes "secret123") (replicate 16 1) ≡ some b.s_hash)
auth_init-password_store_example =
    auth_init-password_store (auth_nvs true) (auth_nvs-IsNvs true) sha256 (fresh_hub true)
      (bytes "secret123") (replicate 16 1) (replicate 16 3) true refl store_ok refl

rotated :
    (auth_rotate_token (auth_nvs true) claimed_hub 33 (replicate 16 2)).1
    ≡ some (new_token (replicate 16 2))
unfolding auth_rotate_token persist_token
rotated = refl

auth_rotate_token-restart_example :
    let b = (auth_rotate_token (auth_nvs true) claimed_hub 33 (replicate 16 2)).0 in
    (length (new_token (replicate 16 2)) ≡ 32)
    × (b.s_token ≡ new_token (replicate 16 2))
    × (b.effects ≡ set_api_token (some (new_token (replicate 16 2))) ∷ fd_deauth_all ∷ [])
    × ((auth_init (auth_nvs true) true b.flash (replicate 16 4)).s_token
        ≡ new_token (replicate 16 2))
auth_rotate_token-restart_example =
    auth_rotate_token-restart (auth_nvs true) (auth_nvs-IsNvs true) claimed_hub 33 (replicate 16 2)
      (replicate 16 4) (new_token (replicate 16 2)) true refl refl rotated refl

no_token : none ≢ some (new_token (replicate 16 2))
no_token e = ground arith

-- The owner, with the token from the serial port, tries both routes.
abbrev owner_tries : List Attempt
owner_tries =
    setup true request (replicate 16 1)
    ∷ change (record request { api_key = some (new_token (replicate 16 2)) }) (at_ms 10) (at_ms 20)
        (at_ms 30) (at_ms 40) (replicate 16 1) (replicate 16 3)
    ∷ []

auth_init-fault_example :
    let b = auth_init (auth_nvs false) false empty_namespace (replicate 16 2) in
    (b.s_enabled ≡ true)
    × (b.s_pw_set ≡ false)
    × ((check_request b 9 none (at_ms 10) (at_ms 20)).1 ≡ false)
    × (handle_setup
          (auth_nvs false)
          sha256
          parse
          b
          true
          (record request { api_key = none })
          (replicate 16 1)
        ≡ (b, reply (some "503 Service Unavailable") "{\"error\":\"storage_error\"}"))
    × ((attempts (auth_nvs false) sha256 parse b owner_tries).s_pw_set ≡ false)
    × ((attempts (auth_nvs false) sha256 parse b owner_tries).flash ≡ empty_namespace)
auth_init-fault_example =
    auth_init-fault (auth_nvs false) sha256 parse false true empty_namespace (replicate 16 2)
      (replicate 16 1) (record request { api_key = none }) (at_ms 10) (at_ms 20) owner_tries refl
      refl no_token
