-- ===== src/Auth/Boot/Restart.antt =====
-- main/auth.cpp: what the next boot finds, and a boot without storage.
use zhac_mono_core.Prelude.{
  ℕ, ◌*◌, ◌≡◌, refl, sym, if◌then◌else◌, ◌≢◌, inl, inr, ◌∙◌, ap, Bool, true, not, Option, some,
  List, [], ◌∷◌, ◌++◌, length, length-append, ◌==◌, Bool-cases, arith, default,
}
use zhac_mono_core.Prelude.Text.{hex_digit, hex_fixed}
use zhac_mono_core.Auth.Storage.{Nvs, IsNvs, Key, enabled, token, pw_salt, pw_hash}
use zhac_mono_core.Auth.State.{Auth, set_api_token, fd_deauth_all, call}
use zhac_mono_core.Auth.Token.{new_token, persist_token, tell_token, auth_rotate_token}
use zhac_mono_core.Auth.Password.{kdf, persist_password, password_store}
use zhac_mono_core.Auth.Password.Round.{stored, kdf-length}
use zhac_mono_core.Auth.Boot.{powered_on, load_token, load_password, announce, auth_init}

pub new_token-length : (rnd : List ℕ) → length (new_token rnd) ≡ 2 * length rnd
unfolding new_token hex_fixed
new_token-length [] = refl
new_token-length (b ∷ rnd) =
    omega (arith, length-append (hex_fixed hex_digit 2 b) (new_token rnd), new_token-length rnd)

hash≢salt : pw_hash ≢ pw_salt
hash≢salt e = ground arith

module _ (nvs : Nvs) (law : IsNvs nvs) where
  announce_kept :
      (a : Auth nvs.Flash)
      → ((announce nvs a).s_salt ≡ a.s_salt)
        × ((announce nvs a).s_hash ≡ a.s_hash)
        × ((announce nvs a).s_pw_set ≡ a.s_pw_set)
        × ((announce nvs a).s_token ≡ a.s_token)
  unfolding announce call
  announce_kept a = (ground arith, ground arith, ground arith, ground arith)

  load_token_blob :
      (a : Auth nvs.Flash) (rnd : List ℕ) (k : Key)
      → nvs.get_blob (load_token nvs a rnd).flash k ≡ nvs.get_blob a.flash k
  unfolding load_token
  load_token_blob a rnd k =
      elim (Bool-cases (length (default (nvs.get_str a.flash token) []) == 0)) [
        | inl e ↦ simp (e, law.commit_blob, law.str_blob)
        | inr e ↦ simp e
      ]

  load_password_found :
      (a : Auth nvs.Flash) (salt hash : List ℕ)
      → nvs.get_blob a.flash pw_salt ≡ some salt
      → nvs.get_blob a.flash pw_hash ≡ some hash
      → length salt ≡ 16
      → length hash ≡ 32
      → load_password nvs a ≡ record a { s_salt = salt; s_hash = hash; s_pw_set = true }
  unfolding load_password
  load_password_found a salt hash s h ls lh = rw (s, h) (rw (ls, lh) refl)

  persisted :
      (f : nvs.Flash) (salt hash : List ℕ)
      → (persist_password nvs f salt hash).1 ≡ true
      → (nvs.get_blob (persist_password nvs f salt hash).0 pw_salt ≡ some salt)
        × (nvs.get_blob (persist_password nvs f salt hash).0 pw_hash ≡ some hash)
  unfolding persist_password
  persisted f salt hash h =
      let opened : nvs.nvs_open f ≡ true = ground arith in
      let one : (nvs.set_blob f pw_salt salt).1 ≡ true = ground arith in
      let two : (nvs.set_blob (nvs.set_blob f pw_salt salt).0 pw_hash hash).1 ≡ true =
        ground arith in
      rw (opened, one, two)
        (
          law.commit_blob _ pw_salt
              ∙ law.blob_other _ pw_hash pw_salt hash hash≢salt
              ∙ law.blob_self f pw_salt salt one,
          law.commit_blob _ pw_hash ∙ law.blob_self _ pw_hash hash two,
        )

  booted :
      (def : Bool) (f : nvs.Flash) (salt hash rnd : List ℕ)
      → nvs.nvs_open f ≡ true
      → nvs.get_blob f pw_salt ≡ some salt
      → nvs.get_blob f pw_hash ≡ some hash
      → length salt ≡ 16
      → length hash ≡ 32
      → let b = auth_init nvs def f rnd in
        (b.s_pw_set ≡ true) × (b.s_salt ≡ salt) × (b.s_hash ≡ hash)
  unfolding auth_init powered_on
  booted def f salt hash rnd opens s h ls lh =
      let en = default (nvs.get_u8 f enabled) (if def then 1 else 0) in
      let a : Auth nvs.Flash = record (powered_on nvs f) { s_enabled = not (en == 0) } in
      let t = load_token nvs a rnd in
      let found =
        load_password_found t salt hash (load_token_blob a rnd pw_salt ∙ s)
          (load_token_blob a rnd pw_hash ∙ h) ls lh in
      let (ks, kh, kp, kt) = announce_kept (load_password nvs t) in
      rw opens (
        kp ∙ ap (λ (q : Auth nvs.Flash). q.s_pw_set) found,
        ks ∙ ap (λ (q : Auth nvs.Flash). q.s_salt) found,
        kh ∙ ap (λ (q : Auth nvs.Flash). q.s_hash) found,
      )

  -- A password that was stored survives a restart: booting from the flash that password_store left, as long as the namespace
  -- opens, gives the salt and the hash that were stored, and a password that is set.
  pub auth_init-password_store :
      (sha256 : List ℕ → Option (List ℕ)) (a : Auth nvs.Flash) (pw salt rnd : List ℕ) (def : Bool)
      → length salt ≡ 16
      → (password_store sha256 nvs a pw salt).1 ≡ true
      → nvs.nvs_open (password_store sha256 nvs a pw salt).0.flash ≡ true
      → let b = auth_init nvs def (password_store sha256 nvs a pw salt).0.flash rnd in
        (b.s_pw_set ≡ true) × (b.s_salt ≡ salt) × (kdf sha256 pw salt ≡ some b.s_hash)
  auth_init-password_store sha256 a pw salt rnd def l h opens =
      let (hash, lo, hi, k, saved, state) = stored sha256 nvs a pw salt h in
      let same = ap (λ (q : Auth nvs.Flash). q.flash) state in
      let (s, t) = persisted a.flash salt hash saved in
      let (p, q, r) =
        booted def (persist_password nvs a.flash salt hash).0 salt hash rnd (rw same at opens) s t l
          (kdf-length sha256 pw salt hash k) in
      rw same (p, q, k ∙ ap some (sym r))

  persisted_token :
      (f : nvs.Flash) (t : List ℕ)
      → (persist_token nvs f t).1 ≡ true
      → nvs.get_str (persist_token nvs f t).0 token ≡ some t
  unfolding persist_token
  persisted_token f t h =
      let opened : nvs.nvs_open f ≡ true = ground arith in
      let wrote : (nvs.set_str f token t).1 ≡ true = ground arith in
      rw (opened, wrote) (law.commit_str _ token ∙ law.str_self f token t wrote)

  load_password_token : (a : Auth nvs.Flash) → (load_password nvs a).s_token ≡ a.s_token
  unfolding load_password
  load_password_token a = ground arith

  load_token_found :
      (a : Auth nvs.Flash) (rnd t : List ℕ)
      → nvs.get_str a.flash token ≡ some t
      → length t ≡ 32
      → (load_token nvs a rnd).s_token ≡ t
  unfolding load_token
  load_token_found a rnd t e l = rw e (rw l refl)

  booted_token :
      (def : Bool) (f : nvs.Flash) (rnd t : List ℕ)
      → nvs.nvs_open f ≡ true
      → nvs.get_str f token ≡ some t
      → length t ≡ 32
      → (auth_init nvs def f rnd).s_token ≡ t
  unfolding auth_init powered_on
  booted_token def f rnd t opens e l =
      let en = default (nvs.get_u8 f enabled) (if def then 1 else 0) in
      let a : Auth nvs.Flash = record (powered_on nvs f) { s_enabled = not (en == 0) } in
      let (ks, kh, kp, kt) = announce_kept (load_password nvs (load_token nvs a rnd)) in
      rw opens (kt ∙ load_password_token (load_token nvs a rnd) ∙ load_token_found a rnd t e l)

  rotation :
      (a : Auth nvs.Flash) (cap : ℕ) (rnd fresh : List ℕ)
      → (auth_rotate_token nvs a cap rnd).1 ≡ some fresh
      → (new_token rnd ≡ fresh)
        × ((persist_token nvs a.flash (new_token rnd)).1 ≡ true)
        × ((auth_rotate_token nvs a cap rnd).0
            ≡ tell_token nvs (record a {
              flash = (persist_token nvs a.flash (new_token rnd)).0;
              s_token = new_token rnd;
            }))
  unfolding auth_rotate_token
  rotation a cap rnd fresh h = (ground arith, ground arith, ground arith)

  told :
      (a : Auth nvs.Flash)
      → a.s_enabled ≡ true
      → tell_token nvs a ≡ record a {
        effects = (a.effects ++ set_api_token (some a.s_token) ∷ []) ++ fd_deauth_all ∷ [];
      }
  unfolding tell_token call
  told a on = simp on

  -- A rotation with sign-in on, by 16 random bytes, that gives a token: the token has 32 characters, it is the one in force,
  -- ws_server is told it and then to drop every session, and the next boot, where the namespace opens, comes up with it.
  pub auth_rotate_token-restart :
      (a : Auth nvs.Flash) (cap : ℕ) (rnd later fresh : List ℕ) (def : Bool)
      → a.s_enabled ≡ true
      → length rnd ≡ 16
      → (auth_rotate_token nvs a cap rnd).1 ≡ some fresh
      → nvs.nvs_open (auth_rotate_token nvs a cap rnd).0.flash ≡ true
      → let b = (auth_rotate_token nvs a cap rnd).0 in
        (length fresh ≡ 32)
        × (b.s_token ≡ fresh)
        × (b.effects ≡ (a.effects ++ set_api_token (some fresh) ∷ []) ++ fd_deauth_all ∷ [])
        × ((auth_init nvs def b.flash later).s_token ≡ fresh)
  auth_rotate_token-restart a cap rnd later fresh def on l h opens =
      let (e, saved, state) = rotation a cap rnd fresh h in
      let a' : Auth nvs.Flash = record a {
        flash = (persist_token nvs a.flash (new_token rnd)).0;
        s_token = new_token rnd;
      } in
      let now = state ∙ told a' on in
      let n : length fresh ≡ 32 = rw e at (new_token-length rnd ∙ ap (λ k. 2 * k) l) in
      let kept = persisted_token a.flash (new_token rnd) saved in
      let same = ap (λ (q : Auth nvs.Flash). q.flash) now in
      rw now
        (n, e, rw e refl, booted_token def _ later fresh (rw same at opens) (kept ∙ ap some e) n)
