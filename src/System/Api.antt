-- ===== src/System/Api.antt =====
-- main/api_system.cpp: the REST routes of the settings, the token, the diagnostics and the log.
-- `chunk` is what one httpd_req_recv can give, none where it fails.
use zhac_mono_core.Prelude.{
  ℕ, ◌-◌, Bool, Option, none, some, List, [], ◌∷◌, ◌++◌, ◌==◌, ltb, if◌then◌else◌, length, map,
}
use zhac_mono_core.Prelude.Text.{bytes, hex_digit, hex_fixed}
use zhac_mono_core.Document.{
  Json, JsonLib, number, boolean, text, array, array_of, object_of, serialize_to,
}
use zhac_mono_core.Auth.Storage as AuthStorage
use zhac_mono_core.Auth.Requests.{Response, reply, send_token}
use zhac_mono_core.LogRing.{Ring, log_ring_to_json}
use zhac_mono_core.Groups.Api.Rest.{body_of, no_body, ok_response}
use zhac_mono_core.System.{Nvs, Gateway, Settings, system_apply_settings, system_rotate_token}

pub record ZbUnhandledFrame : Type 0 where
  pub cluster_id : ℕ
  pub attr_or_cmd_id : ℕ
  pub cluster_specific : Bool
  pub count : ℕ
  pub last_seen_s : ℕ
  pub last_ieee : ℕ

unfoldable pub frame_row : ℕ → ZbUnhandledFrame → Json
frame_row now fr = object_of (
    (bytes "cluster", number fr.cluster_id)
    ∷ (bytes "id", number fr.attr_or_cmd_id)
    ∷ (bytes "cs", boolean fr.cluster_specific)
    ∷ (bytes "count", number fr.count)
    ∷ (bytes "age_s", number (if ltb fr.last_seen_s now then now - fr.last_seen_s else 0))
    ∷ (bytes "ieee", text (bytes "0x" ++ hex_fixed hex_digit 16 fr.last_ieee))
    ∷ [])

-- `frames` is what zb_diag_snapshot gives with room for 24, `now` the time of day.
unfoldable pub system_diagnostics_json : JsonLib → ℕ → List ZbUnhandledFrame → ℕ → List ℕ
system_diagnostics_json lib now frames cap =
    serialize_to lib
      (object_of ((bytes "entries", array (array_of (map (frame_row now) frames))) ∷ [])) cap

unfoldable pub handle_diagnostics_unhandled : JsonLib → ℕ → List ZbUnhandledFrame → Response
handle_diagnostics_unhandled lib now frames =
    let out = system_diagnostics_json lib now frames 1536 in
    if length out == 0 then ok_response (bytes "{\"entries\":[]}") else ok_response out

-- s_ring and whether the buffer was allocated.
unfoldable pub handle_logs_get : Option Ring → Bool → Response
handle_logs_get s_ring allocated =
    if allocated
    then elim s_ring [
      | none ↦ ok_response (bytes "{\"logs\":[]}")
      | some r ↦ elim (log_ring_to_json r 32768) [
        | none ↦ ok_response (bytes "{\"logs\":[]}")
        | some out ↦ ok_response out
      ]
    ]
    else reply (some "500 Internal Server Error") "oom"

module _ (nvs : Nvs) (keys : AuthStorage.Nvs) (gate : Gateway) (lib : JsonLib) where
  unfoldable pub handle_settings_set :
      Settings nvs keys gate lib → Option (List ℕ) → Settings nvs keys gate lib × Response
  handle_settings_set w chunk = elim (body_of chunk 512) [
    | none ↦ (w, no_body)
    | some body ↦
        let done = system_apply_settings nvs keys gate lib w body in
        if done.1
        then (done.0, ok_response (bytes "{\"ok\":true}"))
        else (done.0, reply (some "400 Bad Request") "bad json")
  ]

  -- `rnd` are the random bytes.
  unfoldable pub handle_token_rotate :
      Settings nvs keys gate lib → List ℕ → Settings nvs keys gate lib × Response
  handle_token_rotate w rnd =
      let done = system_rotate_token nvs keys gate lib w 33 rnd in
      elim done.1 [
        | none ↦ (done.0, reply (some "500 Internal Server Error") "nvs")
        | some token ↦ (done.0, send_token token)
      ]
