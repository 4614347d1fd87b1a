-- ===== src/Auth/Boot.antt =====
-- main/auth.cpp: auth_init and what it reads from flash.
pub mod Restart
pub mod Fault
use zhac_mono_core.Prelude.{
  ℕ, Bool, true, false, ◌&&◌, not, Option, none, some, List, [], ◌∷◌, if◌then◌else◌, ◌==◌, length,
  default,
}
use zhac_mono_core.Auth.Lockout.{no_buckets}
use zhac_mono_core.Auth.Storage.{Nvs, enabled, token, pw_salt, pw_hash}
use zhac_mono_core.Auth.State.{Auth, Effect, set_api_token, serial_token, call}
use zhac_mono_core.Auth.Token.{new_token}

module _ (nvs : Nvs) where
  -- The variables before auth_init.
  unfoldable pub powered_on : nvs.Flash → Auth nvs.Flash
  powered_on f = record {
    s_token = [];
    s_enabled = false;
    s_storage_error = false;
    s_buckets = no_buckets;
    s_salt = [];
    s_hash = [];
    s_pw_set = false;
    flash = f;
    effects = [];
  }

  -- The namespace cannot be opened: sign-in on, with a token that is only printed.
  unfoldable pub storage_fault : Auth nvs.Flash → List ℕ → Auth nvs.Flash
  storage_fault a rnd =
      let t = new_token rnd in
      let closed = record a {
        s_storage_error = true;
        s_enabled = true;
        s_pw_set = false;
        s_token = t;
      } in
      call (call closed (set_api_token (some t))) (serial_token t)

  unfoldable pub load_token : Auth nvs.Flash → List ℕ → Auth nvs.Flash
  load_token a rnd =
      let t = new_token rnd in
      let kept = default (nvs.get_str a.flash token) [] in
      if length kept == 0
      then record a { s_token = t; flash = (nvs.commit (nvs.set_str a.flash token t).0).0 }
      else record a { s_token = kept }

  -- Each of the two blobs counts only at its full size. What is read of an incomplete password is left out: without
  -- s_pw_set nothing uses it.
  unfoldable pub load_password : Auth nvs.Flash → Auth nvs.Flash
  load_password a =
      let salt = default (nvs.get_blob a.flash pw_salt) [] in
      let hash = default (nvs.get_blob a.flash pw_hash) [] in
      if length salt == 16 && length hash == 32
      then record a { s_salt = salt; s_hash = hash; s_pw_set = true }
      else record a { s_pw_set = false }

  unfoldable pub announce : Auth nvs.Flash → Auth nvs.Flash
  announce a =
      if a.s_enabled
      then call (call a (set_api_token (some a.s_token))) (serial_token a.s_token)
      else call a (set_api_token none)

  -- `def` is CONFIG_ZHAC_API_AUTH_DEFAULT_ENABLED, `rnd` the bytes of esp_fill_random.
  unfoldable pub auth_init : Bool → nvs.Flash → List ℕ → Auth nvs.Flash
  auth_init def f rnd =
      let a = powered_on f in
      let en = default (nvs.get_u8 f enabled) (if def then 1 else 0) in
      if not (nvs.nvs_open f)
      then storage_fault a rnd
      else announce (load_password (load_token (record a { s_enabled = not (en == 0) }) rnd))

  unfoldable pub auth_setup_secs_left : Auth nvs.Flash → ℕ → ℕ
  auth_setup_secs_left a left = if a.s_enabled && not a.s_pw_set then left else 0
