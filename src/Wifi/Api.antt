-- ===== src/Wifi/Api.antt =====
-- main/api_wifi.cpp: the REST routes of the Wi-Fi settings.
-- `chunk` is what one httpd_req_recv can give, none where it fails; `AuthModes` are the values of wifi_auth_mode_t.
use zhac_mono_core.Prelude.{
  ℕ, ◌-◌, ◌≡◌, ◌≤◌, ◌<◌, refl, ◌∙◌, inl, inr, Bool, true, false, Option, none, some, List, [], ◌∷◌,
  ◌==◌, if◌then◌else◌, length, take, arith, map, default, Bool-cases, sym, ap,
}
use zhac_mono_core.Prelude.Text.{bytes}
use zhac_mono_core.Document.{
  Json, JsonLib, pos, negsuc, integer, boolean, text, array, array_of, object_of, as_text, member,
  serialize_to,
}
use zhac_mono_core.Auth.Requests.{Response, reply}
use zhac_mono_core.Groups.Api.Rest.{body_of, no_body, ok_response}
use zhac_mono_core.Wifi.{
  Nvs, IsNvs, Driver, WifiState, Found, wifi_save_sta, wifi_start, wifi_get_status, wifi_scan,
  wifi_forget_and_reboot,
}
use zhac_mono_core.Wifi.Creds.{wifi_start-save}

pub record AuthModes : Type 0 where
  pub wifi_open : ℕ
  pub wep : ℕ
  pub wpa_psk : ℕ
  pub wpa2_psk : ℕ
  pub wpa_wpa2_psk : ℕ
  pub wpa3_psk : ℕ
  pub wpa2_wpa3_psk : ℕ
  pub enterprise : ℕ

unfoldable pub auth_str : AuthModes → ℕ → List ℕ
auth_str m a =
    if a == m.wifi_open
    then bytes "open"
    else if a == m.wep
    then bytes "wep"
    else if a == m.wpa_psk
    then bytes "wpa"
    else if a == m.wpa2_psk
    then bytes "wpa2"
    else if a == m.wpa_wpa2_psk
    then bytes "wpa2"
    else if a == m.wpa3_psk
    then bytes "wpa3"
    else if a == m.wpa2_wpa3_psk
    then bytes "wpa3"
    else if a == m.enterprise
    then bytes "enterprise"
    else bytes "other"

-- A signal strength, from its negated value.
abbrev pub rssi_json : ℕ → Json
rssi_json n = integer (if n == 0 then pos 0 else negsuc (n - 1))

unfoldable pub scan_row : AuthModes → Found → Json
scan_row m r = object_of (
    (bytes "ssid", text r.ssid)
    ∷ (bytes "rssi", rssi_json r.rssi)
    ∷ (bytes "auth", text (auth_str m r.authmode))
    ∷ [])

-- `found` is what the driver's scan gives. The names of the results have 33 bytes.
unfoldable pub handle_wifi_scan : JsonLib → AuthModes → Option (List Found) → Response
handle_wifi_scan lib m found = ok_response (
    serialize_to lib
      (object_of
        ((bytes "networks", array (array_of (map (scan_row m) (wifi_scan 33 20 found)))) ∷ []))
      1024)

module _ (nvs : Nvs) (lib : JsonLib) where
  unfoldable pub handle_wifi_status : nvs.Flash → WifiState → Option (List ℕ) → Option ℕ → Response
  handle_wifi_status f s ip rssi =
      let st = wifi_get_status nvs f s ip rssi in
      ok_response (
        serialize_to lib
          (object_of (
            (bytes "mode", text (if st.sta_connected then bytes "sta" else bytes "ap"))
            ∷ (bytes "ssid", text (if st.sta_connected then st.sta_ssid else st.ap_ssid))
            ∷ (bytes "ip", text st.sta_ip)
            ∷ (bytes "rssi", rssi_json (default st.sta_rssi 0))
            ∷ (bytes "sta_configured", boolean st.sta_configured)
            ∷ (bytes "sta_connected", boolean st.sta_connected)
            ∷ (bytes "sta_ssid", text st.sta_ssid)
            ∷ (bytes "sta_ip", text st.sta_ip)
            ∷ (bytes "sta_rssi", rssi_json (default st.sta_rssi 0))
            ∷ (bytes "ap_ssid", text st.ap_ssid)
            ∷ []))
          320)

  -- The new flash, the answer, and whether the hub restarts.
  unfoldable pub handle_wifi_connect : nvs.Flash → Option (List ℕ) → nvs.Flash × Response × Bool
  handle_wifi_connect f chunk = elim (body_of chunk 160) [
    | none ↦ (f, no_body, false)
    | some body ↦ elim (lib.deserialize body) [
      | none ↦ (f, reply (some "400 Bad Request") "bad json", false)
      | some doc ↦
          let name = default (as_text (member doc "ssid")) [] in
          let saved = wifi_save_sta nvs f name (default (as_text (member doc "password")) []) in
          if saved.1
          then (
            saved.0,
            ok_response (
                if length name == 0
                then bytes "{\"ok\":true,\"cleared\":true,\"reboot\":\"in 2s\"}"
                else bytes "{\"ok\":true,\"saved\":true,\"reboot\":\"in 2s\"}"),
            true,
          )
          else (saved.0, reply (some "500 Internal Server Error") "nvs write failed", false)
    ]
  ]

  -- The hub restarts in any case.
  unfoldable pub handle_wifi_disconnect : nvs.Flash → nvs.Flash × Response
  handle_wifi_disconnect f =
      (wifi_forget_and_reboot nvs f, ok_response (bytes "{\"ok\":true,\"reboot\":\"in 1s\"}"))

  -- A restart for a request with a name of 1 to 32 bytes and a password of at most 64 comes up with the station set to
  -- that network, up to the last byte of a name of 32 bytes and of a password of 64.
  pub handle_wifi_connect-start :
      (law : IsNvs nvs) (driver : Driver) (f : nvs.Flash) (chunk body name password : List ℕ)
      (doc : Json)
      → driver.ssid_size ≡ 32
      → driver.password_size ≡ 64
      → body_of (some chunk) 160 ≡ some body
      → lib.deserialize body ≡ some doc
      → as_text (member doc "ssid") ≡ some name
      → as_text (member doc "password") ≡ some password
      → 0 < length name
      → length name ≤ 32
      → length password ≤ 64
      → (handle_wifi_connect f (some chunk)).2 ≡ true
      → nvs.nvs_open (handle_wifi_connect f (some chunk)).0 ≡ true
      → (wifi_start nvs driver false (handle_wifi_connect f (some chunk)).0).sta
        ≡ some (record { ssid = take 31 name; password = take 63 password })
  unfolding handle_wifi_connect
  handle_wifi_connect-start law driver f chunk body name password doc e k b d n p h short small ok
        opens =
      elim (Bool-cases (wifi_save_sta nvs f name password).1) [
        | inr no_ok ↦ absurd (ground (arith, b, d, n, p, no_ok))
        | inl saved ↦
            let moved : (handle_wifi_connect f (some chunk)).0
                ≡ (wifi_save_sta nvs f name password).0 =
              rw (handle_wifi_connect, b, d, n, p, saved) refl in
            let still : nvs.nvs_open (wifi_save_sta nvs f name password).0 ≡ true =
              sym (ap (λ x. nvs.nvs_open x) moved) ∙ opens in
            rw moved
              (wifi_start-save nvs law f driver false name password e k h short small saved still)
      ]
