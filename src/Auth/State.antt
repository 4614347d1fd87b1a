-- ===== src/Auth/State.antt =====
-- main/auth.cpp: the variables of the module, and what it calls besides the flash.
use zhac_mono_core.Prelude.{ℕ, Bool, Option, List, [], ◌∷◌, ◌++◌}
use zhac_mono_core.Auth.Lockout.{Bucket, Turn, record_failure}

-- A call of ws_server, or the token printed on the serial console.
pub data Effect : Type 0 where
  set_api_token : Option (List ℕ) → Effect
  fd_deauth_all : Effect
  serial_token : List ℕ → Effect

-- `s_token` is the string before its NUL; `flash` the namespace in NVS; `effects` the calls so far, the oldest first.
pub record Auth (Flash : Type 0) : Type 0 where
  pub s_token : List ℕ
  pub s_enabled : Bool
  pub s_storage_error : Bool
  pub s_buckets : List Bucket
  pub s_salt : List ℕ
  pub s_hash : List ℕ
  pub s_pw_set : Bool
  pub flash : Flash
  pub effects : List Effect

-- record_failure on the module's table.
unfoldable pub failed : {Flash : Type 0} → Auth Flash → ℕ → Turn → Auth Flash
failed a ip turn = record a { s_buckets = record_failure a.s_buckets ip turn }

unfoldable pub call : {Flash : Type 0} → Auth Flash → Effect → Auth Flash
call a e = record a { effects = a.effects ++ e ∷ [] }
