-- ===== src/Wifi.antt =====
-- main/wifi.cpp: the stored network, the start of the radio, its events, the status and the scan.
-- `Nvs` stands for the namespace wifi, `Driver` for the sizes of ESP-IDF's configuration and what its calls answer.
pub mod Creds
pub mod Events
pub mod Api
use zhac_mono_core.Prelude.{
  ℕ, zero, suc, ◌+◌, ◌-◌, ◌≡◌, ◌≢◌, Bool, true, false, ◌&&◌, ◌||◌, not, Option, none, some, List,
  [], ◌∷◌, ◌++◌, ◌==◌, ltb, leb, if◌then◌else◌, length, take, default, is_some,
}
use zhac_mono_core.Prelude.Text.{bytes}

pub data Key : Type 0 where
  ssid pwd : Key

-- A getter is none where the key has no value; a setter returns whether it returned ESP_OK.
pub record Nvs : Type 1 where
  pub Flash : Type 0
  pub nvs_open : Flash → Bool
  pub get_str : Flash → Key → Option (List ℕ)
  pub set_str : Flash → Key → List ℕ → Flash × Bool
  pub erase_key : Flash → Key → Flash
  pub commit : Flash → Flash

pub record IsNvs (n : Nvs) : Type 0 where
  pub str_self :
      (f : n.Flash) (k : Key) (v : List ℕ)
      → (n.set_str f k v).1 ≡ true
      → n.get_str (n.set_str f k v).0 k ≡ some v
  pub pwd_keeps_ssid :
      (f : n.Flash) (v : List ℕ) → n.get_str (n.set_str f pwd v).0 ssid ≡ n.get_str f ssid
  pub erase_self : (f : n.Flash) (k : Key) → n.get_str (n.erase_key f k) k ≡ none
  pub erase_keeps_none :
      (f : n.Flash) (k j : Key) → n.get_str f j ≡ none → n.get_str (n.erase_key f k) j ≡ none
  pub commit_str : (f : n.Flash) (k : Key) → n.get_str (n.commit f) k ≡ n.get_str f k
  pub commit_open : (f : n.Flash) → n.nvs_open (n.commit f) ≡ n.nvs_open f

-- The sizes of wifi_config_t's arrays.
pub record Driver : Type 0 where
  pub ssid_size : ℕ
  pub password_size : ℕ

pub record Station : Type 0 where
  pub ssid : List ℕ
  pub password : List ℕ

-- The mode and the configurations that esp_wifi_start runs with; the driver keeps out of NVS where `nvs_enable` is false.
pub record Radio : Type 0 where
  pub nvs_enable : Bool
  pub ap_ssid : List ℕ
  pub sta : Option Station

pub data WifiEvent : Type 0 where
  sta_start sta_disconnected sta_got_ip other_event : WifiEvent

pub data Call : Type 0 where
  wifi_connect ntp_start mqtt_sta_up : Call

-- s_sta_connected, s_sntp_started, and the calls so far, the oldest first.
pub record WifiState : Type 0 where
  pub s_sta_connected : Bool
  pub s_sntp_started : Bool
  pub calls : List Call

unfoldable pub on_wifi_event : WifiState → WifiEvent → WifiState
on_wifi_event s sta_start = record s { calls = s.calls ++ wifi_connect ∷ [] }
on_wifi_event s sta_disconnected = record s {
  s_sta_connected = false;
  calls = s.calls ++ wifi_connect ∷ [];
}
on_wifi_event s sta_got_ip = record s {
  s_sta_connected = true;
  s_sntp_started = true;
  calls = s.calls ++ ((if s.s_sntp_started then [] else ntp_start ∷ []) ++ mqtt_sta_up ∷ []);
}
on_wifi_event s other_event = s

pub record WifiStatus : Type 0 where
  pub sta_configured : Bool
  pub sta_connected : Bool
  pub sta_ssid : List ℕ
  pub sta_ip : List ℕ
  pub sta_rssi : Option ℕ
  pub ap_ssid : List ℕ

-- A network that the driver found; `rssi` is the negated value.
pub record Found : Type 0 where
  pub ssid : List ℕ
  pub rssi : ℕ
  pub authmode : ℕ

-- The station's configuration, copied by snprintf into the driver's arrays.
unfoldable pub station : Driver → Option (List ℕ × List ℕ) → Option Station
station driver none = none
station driver (some (s, p)) =
    some (record {
      ssid = take (driver.ssid_size - 1) s;
      password = take (driver.password_size - 1) p;
    })

abbrev pub ap_name : List ℕ
ap_name = bytes "ZHAC-MONO"

-- The loop of wifi_scan, with room for `room` more; `cap` is the size of a result's name.
unfoldable pub scan_from : ℕ → ℕ → List Found → List Found
scan_from cap room [] = []
scan_from cap room (r ∷ rs) =
    let skip = scan_from cap room rs in
    let keep = record r { ssid = take (cap - 1) r.ssid } ∷ scan_from cap (room - 1) rs in
    if room == 0 then [] else if length r.ssid == 0 then skip else keep

-- none: the scan or the reading of its records failed. At most 20 records are read.
unfoldable pub wifi_scan : ℕ → ℕ → Option (List Found) → List Found
wifi_scan cap max none = []
wifi_scan cap max (some rs) = scan_from cap max (take 20 rs)

module _ (nvs : Nvs) where
  -- nvs_get_str into `cap` bytes: it fails where the text and its NUL do not fit.
  unfoldable pub get_within : nvs.Flash → Key → ℕ → Option (List ℕ)
  get_within f k cap = elim (nvs.get_str f k) [
    | none ↦ none
    | some s ↦ if ltb (length s) cap then some s else none
  ]

  unfoldable pub load_creds : nvs.Flash → ℕ → ℕ → Option (List ℕ × List ℕ)
  load_creds f ssid_cap pwd_cap =
      if not (nvs.nvs_open f) then none else elim (get_within f ssid ssid_cap) [
        | none ↦ none
        | some s ↦ if length s == 0 then none else some (s, default (get_within f pwd pwd_cap) [])
      ]

  -- Both writes are made, whatever the first returns.
  unfoldable pub wifi_save_sta : nvs.Flash → List ℕ → List ℕ → nvs.Flash × Bool
  wifi_save_sta f name password =
      let one = nvs.set_str f ssid name in
      let two = nvs.set_str one.0 pwd password in
      if not (nvs.nvs_open f)
      then (f, false)
      else if length name == 0
      then (nvs.commit (nvs.erase_key (nvs.erase_key f ssid) pwd), true)
      else if one.1 && two.1
      then (nvs.commit two.0, true)
      else (two.0, false)

  -- The text read, where it is not empty.
  unfoldable pub wifi_load_sta_ssid : nvs.Flash → ℕ → Option (List ℕ)
  wifi_load_sta_ssid f cap = if not (nvs.nvs_open f) then none else elim (get_within f ssid cap) [
    | none ↦ none
    | some s ↦ if length s == 0 then none else some s
  ]

  -- What wifi_start starts the radio with.
  unfoldable pub wifi_start : Driver → Bool → nvs.Flash → Radio
  wifi_start driver storage_error f = record {
    nvs_enable = not storage_error;
    ap_ssid = ap_name;
    sta = station driver (load_creds f 33 65);
  }

  -- `ip` and `rssi` are what the driver knows of the station.
  unfoldable pub wifi_get_status : nvs.Flash → WifiState → Option (List ℕ) → Option ℕ → WifiStatus
  wifi_get_status f s ip rssi =
      let name = wifi_load_sta_ssid f 33 in
      record {
        sta_configured = is_some name;
        sta_connected = s.s_sta_connected;
        sta_ssid = default name [];
        sta_ip = if s.s_sta_connected then default ip [] else [];
        sta_rssi = if s.s_sta_connected then rssi else none;
        ap_ssid = ap_name;
      }

  -- The new flash; the restart follows.
  unfoldable pub wifi_forget_and_reboot : nvs.Flash → nvs.Flash
  wifi_forget_and_reboot f = (wifi_save_sta f [] []).0
