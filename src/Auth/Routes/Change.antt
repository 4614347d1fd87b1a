-- ===== src/Auth/Routes/Change.antt =====
-- main/auth.cpp: who can change the password.
use zhac_mono_core.Prelude.{
  ℕ, ◌≡◌, refl, ◌⊎◌, inl, inr, true, false, Option, some, List, [], length, default, Bool-cases,
  Option-cases, arith,
}
use zhac_mono_core.Auth.Lockout.{Turn, locked}
use zhac_mono_core.Auth.Storage.{Nvs}
use zhac_mono_core.Auth.State.{Auth, failed}
use zhac_mono_core.Auth.Token.Gate.{Verdict, check_request-Verdict}
use zhac_mono_core.Auth.Password.{kdf, password_matches, password_check}
use zhac_mono_core.Auth.Password.Round.{password_matches_lem}
use zhac_mono_core.Auth.Requests.{Request, Doc, read_json, gated}
use zhac_mono_core.Auth.Routes.{handle_password, password_route}

-- The same secrets, in RAM and in flash.
unfoldable pub SameSecrets : {Flash : Type 0} → Auth Flash → Auth Flash → Type 0
SameSecrets a b =
    (b.s_token ≡ a.s_token)
    × (b.s_salt ≡ a.s_salt)
    × (b.s_hash ≡ a.s_hash)
    × (b.s_pw_set ≡ a.s_pw_set)
    × (b.flash ≡ a.flash)

same : {Flash : Type 0} (a : Auth Flash) → SameSecrets a a
unfolding SameSecrets
same a = (refl, refl, refl, refl, refl)

failed_same :
    {Flash : Type 0} (a : Auth Flash) (ip : ℕ) (turn : Turn) → SameSecrets a (failed a ip turn)
unfolding SameSecrets failed
failed_same a ip turn = (refl, refl, refl, refl, refl)

module _ (nvs : Nvs) (sha256 : List ℕ → Option (List ℕ)) (parse : List ℕ → Option Doc) where
  -- The body of the request names, as the current password, one that hashes to the stored hash.
  unfoldable pub Knows : Auth nvs.Flash → Request → Type 0
  Knows a req =
      (doc : Doc) × (read_json parse req 320 ≡ some doc)
      × (kdf sha256 (default (doc "current") []) a.s_salt ≡ some a.s_hash)

  checked_same :
      (a : Auth nvs.Flash) (ip : ℕ) (pw : List ℕ) (first second : Turn)
      → SameSecrets a (password_check sha256 a ip pw first second).0
  unfolding SameSecrets password_check failed
  checked_same a ip pw first second =
      (ground arith, ground arith, ground arith, ground arith, ground arith)

  checked_right :
      (a : Auth nvs.Flash) (ip : ℕ) (pw : List ℕ) (first second : Turn)
      → a.s_pw_set ≡ true
      → length a.s_hash ≡ 32
      → (password_check sha256 a ip pw first second).1 ≡ true
      → kdf sha256 pw a.s_salt ≡ some a.s_hash
  unfolding password_check
  checked_right a ip pw first second set l h =
      let m : password_matches sha256 a pw ≡ true = ground arith in
      ((password_matches_lem sha256 a pw set l).0 m).1

  inner :
      (a : Auth nvs.Flash) (req : Request) (first second : Turn) (salt rnd : List ℕ)
      → a.s_pw_set ≡ true
      → length a.s_hash ≡ 32
      → Knows a req ⊎ SameSecrets a (handle_password nvs sha256 parse a req first second salt rnd).0
  unfolding handle_password Knows
  inner a req first second salt rnd set l = elim (Option-cases (read_json parse req 320)) [
    | inl r ↦ inr (rw (handle_password, r) (same a))
    | inr (doc, r) ↦ elim (Option-cases (doc "new")) [
      | inl d ↦ inr (rw (handle_password, r) (rw d (same a)))
      | inr (npw, d) ↦
          let current = default (doc "current") [] in
          elim (Bool-cases (password_check sha256 a req.peer_ipv4 current first second).1) [
            | inl e ↦ inl (doc, r, checked_right a req.peer_ipv4 current first second set l e)
            | inr e ↦ inr (
                rw (handle_password, r)
                  (rw d (simp (set, e) (checked_same a req.peer_ipv4 current first second))))
          ]
    ]
  ]

  -- With sign-in on, a token of 32 characters, a password set and a stored hash of 32 bytes, a request to change the password either leaves
  -- the token, the password and the flash as they are, or it carries the token, comes from a peer that the gate does not find locked out, and
  -- names the current password.
  pub password_route-guard :
      (a : Auth nvs.Flash) (req : Request) (gate_first gate_second first second : Turn)
      (salt rnd : List ℕ)
      → a.s_enabled ≡ true
      → length a.s_token ≡ 32
      → a.s_pw_set ≡ true
      → length a.s_hash ≡ 32
      → SameSecrets a
          (password_route nvs sha256 parse a req gate_first gate_second first second salt rnd).0
        ⊎ ((req.api_key ≡ some a.s_token)
            × (locked a.s_buckets req.peer_ipv4 gate_first ≡ false)
            × Knows a req)
  unfolding password_route gated Verdict
  password_route-guard a req gate_first gate_second first second salt rnd on lt' set lh =
      elim (check_request-Verdict a req.peer_ipv4 req.api_key gate_first gate_second on lt') [
        | inr (inl (e, shut)) ↦ inl (rw e (same a))
        | inr (inr (e, free, k)) ↦ inl (rw e (failed_same a req.peer_ipv4 gate_second))
        | inl (e, free, k) ↦ elim (inner a req first second salt rnd set lh) [
          | inl knows ↦ inr (k, free, knows)
          | inr kept ↦ inl (rw e kept)
        ]
      ]
