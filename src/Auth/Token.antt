-- ===== src/Auth/Token.antt =====
-- main/auth.cpp: the comparison of secrets, the check of the token, its rotation.
pub mod Gate
use zhac_mono_core.Prelude.{
  ℕ, zero, suc, Bool, true, false, ◌&&◌, not, Option, none, some, List, [], ◌∷◌, ◌++◌,
  if◌then◌else◌, ◌==◌, length, get_or, take, ltb, ◌-◌,
}
use zhac_mono_core.Prelude.Text.{hex_digit, hex_fixed}
use zhac_mono_core.Auth.Lockout.{Turn, locked}
use zhac_mono_core.Auth.Storage.{Nvs, enabled, token}
use zhac_mono_core.Auth.State.{Auth, set_api_token, fd_deauth_all, failed, call}
use Prim.Native.Nat.{bit_or, bit_xor}

-- `diff |= c[i] ^ t[i]` for `rounds` bytes from `i` on; the bytes after a string's end are 0.
unfoldable pub diff_from : ℕ → ℕ → List ℕ → List ℕ → ℕ → ℕ
diff_from zero i c t diff = diff
diff_from (suc rounds) i c t diff =
    diff_from rounds (suc i) c t (bit_or diff (bit_xor (get_or c i 0) (get_or t i 0)))

unfoldable pub token_matches : List ℕ → List ℕ → Bool
token_matches c s_token = diff_from 32 0 c s_token 0 == 0

-- A key of 32 characters that is the token; none is a missing one.
unfoldable pub accepted : Option (List ℕ) → List ℕ → Bool
accepted none s_token = false
accepted (some key) s_token = length key == 32 && token_matches key s_token

-- `key` is the X-Api-Key header where it is there and fits its 64 bytes.
unfoldable pub check_request :
    {Flash : Type 0} → Auth Flash → ℕ → Option (List ℕ) → Turn → Turn → Auth Flash × Bool
check_request a ip key first second =
    if not a.s_enabled
    then (a, true)
    else if locked a.s_buckets ip first
    then (a, false)
    else if accepted key a.s_token
    then (a, true)
    else (failed a ip second, false)

-- The WebSocket path: no peer address, the bucket of address 0.
unfoldable pub auth_check_token :
    {Flash : Type 0} → Auth Flash → Option (List ℕ) → Turn → Turn → Auth Flash × Bool
auth_check_token a key first second =
    if not a.s_enabled
    then (a, true)
    else if locked a.s_buckets 0 first
    then (a, false)
    else if accepted key a.s_token
    then (a, true)
    else (failed a 0 second, false)

-- `rnd` are the bytes of esp_fill_random; two digits for each.
unfoldable pub new_token : List ℕ → List ℕ
new_token [] = []
new_token (b ∷ rnd) = hex_fixed hex_digit 2 b ++ new_token rnd

unfoldable pub auth_token_copy : {Flash : Type 0} → Auth Flash → ℕ → List ℕ × ℕ
auth_token_copy a cap =
    let out = take (cap - 1) a.s_token in if cap == 0 then ([], 0) else (out, length out)

module _ (nvs : Nvs) where
  unfoldable pub persist_token : nvs.Flash → List ℕ → nvs.Flash × Bool
  persist_token f t =
      let wrote = nvs.set_str f token t in
      if not (nvs.nvs_open f)
      then (f, false)
      else if wrote.1
      then nvs.commit wrote.0
      else (wrote.0, false)

  unfoldable pub tell_token : Auth nvs.Flash → Auth nvs.Flash
  tell_token a =
      if a.s_enabled then call (call a (set_api_token (some a.s_token))) fd_deauth_all else a

  -- The token that the caller's buffer of `cap` bytes gets, if it rotates.
  unfoldable pub auth_rotate_token : Auth nvs.Flash → ℕ → List ℕ → Auth nvs.Flash × Option (List ℕ)
  auth_rotate_token a cap rnd =
      let fresh = new_token rnd in
      let saved = persist_token a.flash fresh in
      if ltb cap 33
      then (a, none)
      else if saved.1
      then (tell_token (record a { flash = saved.0; s_token = fresh }), some fresh)
      else (record a { flash = saved.0 }, none)

  unfoldable pub auth_set_enabled : Auth nvs.Flash → Bool → Auth nvs.Flash
  auth_set_enabled a en =
      let wrote = nvs.commit (nvs.set_u8 a.flash enabled (if en then 1 else 0)).0 in
      let kept = if nvs.nvs_open a.flash then wrote.0 else a.flash in
      call (record a { s_enabled = en; flash = kept })
        (set_api_token (if en then some a.s_token else none))
