-- ===== src/Auth/Routes/Login.antt =====
-- main/auth.cpp: what a login answers.
use zhac_mono_core.Prelude.{
  ℕ, ◌≡◌, refl, ◌⊎◌, inl, inr, true, false, Option, some, List, length, Bool-cases, arith, ◌<◌,
}
use zhac_mono_core.Auth.Lockout.{Turn, locked}
use zhac_mono_core.Auth.Storage.{Nvs}
use zhac_mono_core.Auth.State.{Auth, failed}
use zhac_mono_core.Auth.Password.{kdf, password_matches, password_check}
use zhac_mono_core.Auth.Password.Round.{password_matches_lem}
use zhac_mono_core.Auth.Requests.{Request, Doc, read_json, send_token, unauthorized}
use zhac_mono_core.Auth.Routes.{handle_login, login_with}

module _ (nvs : Nvs) (sha256 : List ℕ → Option (List ℕ)) (parse : List ℕ → Option Doc) where
  to_login_with :
      (a : Auth nvs.Flash) (req : Request) (first second : Turn) (doc : Doc) (pw : List ℕ)
      → read_json parse req 192 ≡ some doc
      → doc "password" ≡ some pw
      → handle_login nvs sha256 parse a req first second
        ≡ login_with nvs sha256 parse a req pw first second
  unfolding handle_login
  to_login_with a req first second doc pw r d = rw (handle_login, r) (rw d refl)

  -- A login with sign-in on, a password set and a stored hash of 32 bytes, whose body holds a password, has one of three ends. From a peer
  -- that is not locked out, with a text that hashes to the stored hash, it answers with the token and changes nothing; with any other text it
  -- answers 401 and records a failure; from a peer that is locked out it answers 401 and changes nothing.
  pub handle_login-outcome :
      (a : Auth nvs.Flash) (req : Request) (first second : Turn) (doc : Doc) (pw : List ℕ)
      → read_json parse req 192 ≡ some doc
      → doc "password" ≡ some pw
      → a.s_enabled ≡ true
      → a.s_pw_set ≡ true
      → length a.s_hash ≡ 32
      → let out = handle_login nvs sha256 parse a req first second in
        let right = (0 < length pw) × (kdf sha256 pw a.s_salt ≡ some a.s_hash) in
        let shut = locked a.s_buckets req.peer_ipv4 first in
        ((shut ≡ false) × right × (out ≡ (a, send_token a.s_token)))
        ⊎ ((shut ≡ false) × (right → ⊥) × (out ≡ (failed a req.peer_ipv4 second, unauthorized)))
        ⊎ ((shut ≡ true) × (out ≡ (a, unauthorized)))
  unfolding login_with password_check
  handle_login-outcome a req first second doc pw r d on set l =
      let body = to_login_with a req first second doc pw r d in
      let (to, from) = password_matches_lem sha256 a pw set l in
      elim (Bool-cases (locked a.s_buckets req.peer_ipv4 first)) [
        | inl e ↦ inr (inr (e, simp (body, on, set, e)))
        | inr e ↦ elim (Bool-cases (password_matches sha256 a pw)) [
          | inl m ↦ inl (e, to m, simp (body, on, set, e, m))
          | inr m ↦
              inr (
                inl (e, (λ q. absurd (let t = from q in ground arith)), simp (body, on, set, e, m)))
        ]
      ]
