-- ===== src/Auth/Routes.antt =====
-- main/auth.cpp: the routes /api/auth/login, /api/auth/setup and /api/auth/password.
-- `setup_open` is whether zap_setup_secs_left() is not 0.
pub mod Login
pub mod Setup
pub mod Change
pub mod Shut
use zhac_mono_core.Prelude.{
  ℕ, Bool, true, false, ◌||◌, not, Option, none, some, List, [], if◌then◌else◌, ltb, length,
  default,
}
use zhac_mono_core.Auth.Lockout.{Turn}
use zhac_mono_core.Auth.Storage.{Nvs}
use zhac_mono_core.Auth.State.{Auth}
use zhac_mono_core.Auth.Token.{auth_rotate_token}
use zhac_mono_core.Auth.Password.{pw_min, pw_max, password_store, password_check}
use zhac_mono_core.Auth.Requests.{
  Request, Response, Doc, reply, invalid_request, unauthorized, read_json, send_token, gated,
}

module _ (nvs : Nvs) (sha256 : List ℕ → Option (List ℕ)) (parse : List ℕ → Option Doc) where
  abbrev bad_length : Response
  bad_length = reply (some "400 Bad Request") "{\"error\":\"password must be 8-63 characters\"}"

  abbrev persist_failed : Response
  persist_failed = reply (some "500 Internal Server Error") "{\"error\":\"persist failed\"}"

  unfoldable pub login_with :
      Auth nvs.Flash → Request → List ℕ → Turn → Turn → Auth nvs.Flash × Response
  login_with a req pw first second =
      let checked = password_check sha256 a req.peer_ipv4 pw first second in
      if not a.s_enabled
      then (a, reply none "{\"ok\":true,\"auth\":false}")
      else if not a.s_pw_set
      then (a, reply (some "409 Conflict") "{\"error\":\"setup_required\"}")
      else if checked.1
      then (checked.0, send_token a.s_token)
      else (checked.0, unauthorized)

  unfoldable pub handle_login : Auth nvs.Flash → Request → Turn → Turn → Auth nvs.Flash × Response
  handle_login a req first second = elim (read_json parse req 192) [
    | none ↦ (a, invalid_request)
    | some doc ↦ elim (doc "password") [
      | none ↦ (a, invalid_request)
      | some pw ↦ login_with a req pw first second
    ]
  ]

  out_of_range : List ℕ → Bool
  out_of_range pw = ltb (length pw) pw_min || ltb pw_max (length pw)

  unfoldable pub setup_with : Auth nvs.Flash → List ℕ → List ℕ → Auth nvs.Flash × Response
  unfolding out_of_range
  setup_with a pw salt =
      let stored = password_store sha256 nvs a pw salt in
      if out_of_range pw
      then (a, bad_length)
      else if stored.1
      then (stored.0, send_token a.s_token)
      else (stored.0, persist_failed)

  -- The part of handle_setup after its three refusals.
  unfoldable pub setup_body : Auth nvs.Flash → Request → List ℕ → Auth nvs.Flash × Response
  setup_body a req salt = elim (read_json parse req 192) [
    | none ↦ (a, invalid_request)
    | some doc ↦ elim (doc "password") [ none ↦ (a, bad_length) | some pw ↦ setup_with a pw salt ]
  ]

  unfoldable pub handle_setup : Auth nvs.Flash → Bool → Request → List ℕ → Auth nvs.Flash × Response
  handle_setup a setup_open req salt =
      if a.s_storage_error
      then (a, reply (some "503 Service Unavailable") "{\"error\":\"storage_error\"}")
      else if a.s_pw_set
      then (a, reply (some "403 Forbidden") "{\"error\":\"already_set\"}")
      else if not setup_open
      then (a, reply (some "403 Forbidden") "{\"error\":\"setup_closed\"}")
      else setup_body a req salt

  -- The end of the change: the new token goes to this browser alone.
  rotated : Auth nvs.Flash → List ℕ → Auth nvs.Flash × Response
  rotated a rnd =
      let turned = auth_rotate_token nvs a 33 rnd in
      elim turned.1 [
        | none ↦
            (turned.0, reply (some "500 Internal Server Error") "{\"error\":\"rotate failed\"}")
        | some fresh ↦ (turned.0, send_token fresh)
      ]

  unfoldable pub change_to : Auth nvs.Flash → List ℕ → List ℕ → List ℕ → Auth nvs.Flash × Response
  unfolding out_of_range rotated
  change_to a npw salt rnd =
      let stored = password_store sha256 nvs a npw salt in
      if out_of_range npw
      then (a, bad_length)
      else if stored.1
      then rotated stored.0 rnd
      else (stored.0, persist_failed)

  unfoldable pub handle_password :
      Auth nvs.Flash → Request → Turn → Turn → List ℕ → List ℕ → Auth nvs.Flash × Response
  handle_password a req first second salt rnd = elim (read_json parse req 320) [
    | none ↦ (a, invalid_request)
    | some doc ↦ elim (doc "new") [
      | none ↦ (a, invalid_request)
      | some npw ↦
          let checked =
            password_check sha256 a req.peer_ipv4 (default (doc "current") []) first second in
          if not a.s_pw_set
          then change_to a npw salt rnd
          else if checked.1
          then change_to checked.0 npw salt rnd
          else (checked.0, reply (some "401 Unauthorized") "{\"error\":\"wrong_password\"}")
    ]
  ]

  -- The route /api/auth/password is registered behind the gate, whose two turns come first.
  unfoldable pub password_route :
      Auth nvs.Flash
      → Request
      → Turn
      → Turn
      → Turn
      → Turn
      → List ℕ
      → List ℕ
      → Auth nvs.Flash × Response
  password_route a req gate_first gate_second first second salt rnd =
      gated (λ b r. handle_password b r first second salt rnd) a req gate_first gate_second
