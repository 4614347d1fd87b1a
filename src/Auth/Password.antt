-- ===== src/Auth/Password.antt =====
-- main/auth.cpp: the admin password, a salted and iterated SHA-256 in flash.
-- `sha256` stands for psa_hash_compute: none where it does not return PSA_SUCCESS.
pub mod Round
use zhac_mono_core.Prelude.{
  ℕ, zero, suc, ◌-◌, Bool, true, false, ◌||◌, not, Option, none, some, List, ◌++◌, if◌then◌else◌,
  ltb, ◌==◌, length,
}
use zhac_mono_core.Auth.Lockout.{Turn, locked}
use zhac_mono_core.Auth.Storage.{Nvs, pw_salt, pw_hash}
use zhac_mono_core.Auth.State.{Auth, failed}
use zhac_mono_core.Auth.Token.{diff_from}

abbrev pub kdf_rounds : ℕ
kdf_rounds = 8192

abbrev pub pw_min : ℕ
pw_min = 8

abbrev pub pw_max : ℕ
pw_max = 63

unfoldable pub whole_digest : Option (List ℕ) → Option (List ℕ)
whole_digest none = none
whole_digest (some h) = if length h == 32 then some h else none

unfoldable pub is_hash : Option (List ℕ) → List ℕ → Bool
is_hash none s_hash = false
is_hash (some h) s_hash = diff_from 32 0 h s_hash 0 == 0

module _ (nvs : Nvs) where
  -- The three writes, each only after the one before succeeded.
  unfoldable pub persist_password : nvs.Flash → List ℕ → List ℕ → nvs.Flash × Bool
  persist_password f salt hash =
      let one = nvs.set_blob f pw_salt salt in
      let two = nvs.set_blob one.0 pw_hash hash in
      if not (nvs.nvs_open f)
      then (f, false)
      else if not one.1
      then (one.0, false)
      else if not two.1
      then (two.0, false)
      else nvs.commit two.0

  unfoldable pub keep_password : Auth nvs.Flash → List ℕ → List ℕ → Auth nvs.Flash × Bool
  keep_password a salt hash =
      let saved = persist_password a.flash salt hash in
      if saved.1
      then (record a { flash = saved.0; s_salt = salt; s_hash = hash; s_pw_set = true }, true)
      else (record a { flash = saved.0 }, false)

module _ (sha256 : List ℕ → Option (List ℕ)) where
  -- The rounds that are left, from the hash `h` of the one before; `tail` is the salt and the password.
  unfoldable pub kdf_loop : ℕ → List ℕ → List ℕ → Option (List ℕ)
  kdf_loop zero tail h = some h
  kdf_loop (suc rounds) tail h = elim (sha256 (h ++ tail)) [
    | none ↦ none
    | some g ↦ kdf_loop rounds tail g
  ]

  unfoldable pub kdf : List ℕ → List ℕ → Option (List ℕ)
  kdf pw salt =
      if ltb pw_max (length pw)
      then none
      else whole_digest (elim (sha256 (salt ++ pw)) [
        | none ↦ none
        | some h ↦ kdf_loop (kdf_rounds - 1) (salt ++ pw) h
      ])

  -- `salt` are the bytes of esp_fill_random.
  unfoldable pub password_store :
      (nvs : Nvs) → Auth nvs.Flash → List ℕ → List ℕ → Auth nvs.Flash × Bool
  password_store nvs a pw salt =
      if ltb (length pw) pw_min || ltb pw_max (length pw)
      then (a, false)
      else elim (kdf pw salt) [ none ↦ (a, false) | some hash ↦ keep_password nvs a salt hash ]

  -- The part of password_check after the lockout: whether the password is the one that is set.
  unfoldable pub password_matches : {Flash : Type 0} → Auth Flash → List ℕ → Bool
  password_matches a pw =
      if not a.s_pw_set || length pw == 0 then false else is_hash (kdf pw a.s_salt) a.s_hash

  unfoldable pub password_check :
      {Flash : Type 0} → Auth Flash → ℕ → List ℕ → Turn → Turn → Auth Flash × Bool
  password_check a ip pw first second =
      if locked a.s_buckets ip first
      then (a, false)
      else if password_matches a pw
      then (a, true)
      else (failed a ip second, false)
