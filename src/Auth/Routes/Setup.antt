-- ===== src/Auth/Routes/Setup.antt =====
-- main/auth.cpp: when a first password can be set.
use zhac_mono_core.Prelude.{
  ℕ, ◌≡◌, refl, inl, inr, ◌≤◌, Bool, true, false, Option, some, List, length, ◌||◌, ltb, Bool-cases,
  Option-cases, arith,
}
use zhac_mono_core.Auth.Storage.{Nvs}
use zhac_mono_core.Auth.State.{Auth}
use zhac_mono_core.Auth.Password.{kdf, password_store, persist_password, keep_password}
use zhac_mono_core.Auth.Password.Round.{stored}
use zhac_mono_core.Auth.Requests.{Request, Response, Doc, read_json, send_token}
use zhac_mono_core.Auth.Routes.{handle_setup, setup_with, setup_body}

module _ (nvs : Nvs) (sha256 : List ℕ → Option (List ℕ)) (parse : List ℕ → Option Doc) where
  -- What a set-up that stores a password did.
  unfoldable pub Claimed : Auth nvs.Flash → Request → List ℕ → Auth nvs.Flash × Response → Type 0
  Claimed a req salt out =
      (doc : Doc) × (pw hash : List ℕ) × (read_json parse req 192 ≡ some doc)
      × (doc "password" ≡ some pw)
      × (8 ≤ length pw)
      × (length pw ≤ 63)
      × (kdf sha256 pw salt ≡ some hash)
      × ((persist_password nvs a.flash salt hash).1 ≡ true)
      × (out ≡ (
        record a {
          flash = (persist_password nvs a.flash salt hash).0;
          s_salt = salt;
          s_hash = hash;
          s_pw_set = true;
        },
        send_token a.s_token,
      ))

  not_stored :
      (a : Auth nvs.Flash) (pw salt : List ℕ)
      → (password_store sha256 nvs a pw salt).1 ≡ false
      → (password_store sha256 nvs a pw salt).0.s_pw_set ≡ a.s_pw_set
  unfolding password_store keep_password
  not_stored a pw salt h = elim (Option-cases (kdf sha256 pw salt)) [
    | inl e ↦ rw e (ground arith)
    | inr (hash, e) ↦ let k = rw e at h in rw e (ground arith)
  ]

  with_claims :
      (a : Auth nvs.Flash) (req : Request) (doc : Doc) (pw salt : List ℕ)
      → read_json parse req 192 ≡ some doc
      → doc "password" ≡ some pw
      → a.s_pw_set ≡ false
      → (setup_with nvs sha256 parse a pw salt).0.s_pw_set ≡ true
      → Claimed a req salt (setup_with nvs sha256 parse a pw salt)
  unfolding Claimed setup_with
  with_claims a req doc pw salt r d unset h =
      elim (Bool-cases (password_store sha256 nvs a pw salt).1) [
        | inr e ↦ let k = not_stored a pw salt e in absurd (ground arith)
        | inl e ↦
            let (hash, lo, hi, k, saved, state) = stored sha256 nvs a pw salt e in
            let small : (ltb (length pw) 8 || ltb 63 (length pw)) ≡ false = ground arith in
            (doc, pw, hash, r, d, lo, hi, k, saved, rw (small, e, state) refl)
      ]

  body_claims :
      (a : Auth nvs.Flash) (req : Request) (salt : List ℕ)
      → a.s_pw_set ≡ false
      → (setup_body nvs sha256 parse a req salt).0.s_pw_set ≡ true
      → Claimed a req salt (setup_body nvs sha256 parse a req salt)
  unfolding setup_body
  body_claims a req salt unset h = elim (Option-cases (read_json parse req 192)) [
    | inl r ↦ absurd (let k = rw (setup_body, r) at h in ground arith)
    | inr (doc, r) ↦ elim (Option-cases (doc "password")) [
      | inl d ↦ absurd (let k = rw d at rw (setup_body, r) at h in ground arith)
      | inr (pw, d) ↦
          let k = rw d at rw (setup_body, r) at h in
          rw (setup_body, r) (rw d (with_claims a req doc pw salt r d unset k))
    ]
  ]

  -- Where a set-up leaves a hub that had no password with one, its storage was sound and the set-up window open, the request held a
  -- password of 8 to 63 characters, what is kept in RAM is its hash under the new salt, and the flash took both.
  pub handle_setup-claims :
      (a : Auth nvs.Flash) (setup_open : Bool) (req : Request) (salt : List ℕ)
      → a.s_pw_set ≡ false
      → (handle_setup nvs sha256 parse a setup_open req salt).0.s_pw_set ≡ true
      → (a.s_storage_error ≡ false)
        × (setup_open ≡ true)
        × Claimed a req salt (handle_setup nvs sha256 parse a setup_open req salt)
  unfolding handle_setup
  handle_setup-claims a setup_open req salt unset h =
      let sound : a.s_storage_error ≡ false = ground arith in
      let opened : setup_open ≡ true = ground arith in
      (
        sound,
        opened,
        simp (sound, unset, opened)
            (body_claims a req salt unset (simp (sound, unset, opened) at h)),
      )
