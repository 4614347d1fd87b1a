-- ===== src/System.antt =====
-- main/sys_state.cpp and main/api_system.cpp: the hub's switches and time zone, and the settings document.
-- `Nvs` stands for the namespace sys_cfg, `Gateway` for the MQTT, Home Assistant and time server settings.
pub mod Restart
pub mod Refused
pub mod Api
use zhac_mono_core.Prelude.{
  ℕ, zero, suc, ◌+◌, ◌-◌, ◌≡◌, ◌≢◌, Bool, true, false, ◌&&◌, ◌||◌, not, Option, none, some, List,
  [], ◌∷◌, ◌++◌, ◌==◌, ltb, if◌then◌else◌, length, take, default, is_some, get_or,
}
use zhac_mono_core.Prelude.Text.{bytes}
use zhac_mono_core.Document.{Json, boolean, as_text, bool_or, member, JsonLib}
use zhac_mono_core.Auth.State.{Auth}
use zhac_mono_core.Auth.Storage as AuthStorage
use zhac_mono_core.Auth.Token.{auth_set_enabled, auth_rotate_token, auth_token_copy}
use zhac_mono_core.LogRing.Sinks.{Log, log_sinks_set_mqtt, log_sinks_set_ws}

pub data Flag : Type 0 where
  metrics_en ap_disabled : Flag

-- A getter is none where it does not return ESP_OK. The results of the setters and of the commit are not read.
pub record Nvs : Type 1 where
  pub Flash : Type 0
  pub nvs_open : Flash → Bool
  pub get_u8 : Flash → Flag → Option ℕ
  pub set_u8 : Flash → Flag → ℕ → Flash
  pub get_timezone : Flash → Option (List ℕ)
  pub set_timezone : Flash → List ℕ → Flash
  pub commit : Flash → Flash

-- `tz` is the variable TZ of the environment.
pub record Sys (Flash : Type 0) : Type 0 where
  pub flash : Flash
  pub s_metrics_enabled : Bool
  pub s_ap_disabled : Bool
  pub s_storage_error : Bool
  pub tz : Option (List ℕ)

pub record Gateway : Type 1 where
  pub State : Type 0
  pub mqtt_apply : State → Json → State
  pub ha_enabled : State → Bool
  pub ha_prefix : State → List ℕ
  pub ha_configure : State → Bool → List ℕ → State
  pub ntp_set_server : State → List ℕ → State × Bool

abbrev pub as_bool : Json → Option Bool
as_bool (boolean b) = some b
as_bool _ = none

module _ (nvs : Nvs) where
  unfoldable pub nvs_get_u8 : nvs.Flash → Flag → ℕ → ℕ
  nvs_get_u8 f key def = if nvs.nvs_open f then default (nvs.get_u8 f key) def else def

  unfoldable pub nvs_set_u8_commit : nvs.Flash → Flag → ℕ → nvs.Flash
  nvs_set_u8_commit f key v = if nvs.nvs_open f then nvs.commit (nvs.set_u8 f key v) else f

  -- The time zone that the boot puts into the environment: none leaves it as it was.
  unfoldable pub stored_timezone : nvs.Flash → Option (List ℕ)
  stored_timezone f = if not (nvs.nvs_open f) then none else elim (nvs.get_timezone f) [
    | none ↦ none
    | some t ↦ if ltb (length t) 64 && not (length t == 0) then some t else none
  ]

  -- The boot, from the variables' first values.
  unfoldable pub sys_state_init : nvs.Flash → Sys nvs.Flash
  sys_state_init f = record {
    flash = f;
    s_metrics_enabled = not (nvs_get_u8 f metrics_en 0 == 0);
    s_ap_disabled = not (nvs_get_u8 f ap_disabled 0 == 0);
    s_storage_error = false;
    tz = stored_timezone f;
  }

  unfoldable pub sys_set_metrics_enabled : Sys nvs.Flash → Bool → Sys nvs.Flash
  sys_set_metrics_enabled s en = record s {
    s_metrics_enabled = en;
    flash = nvs_set_u8_commit s.flash metrics_en (if en then 1 else 0);
  }

  unfoldable pub sys_set_ap_disabled : Sys nvs.Flash → Bool → Sys nvs.Flash
  sys_set_ap_disabled s dis = record s {
    s_ap_disabled = dis;
    flash = nvs_set_u8_commit s.flash ap_disabled (if dis then 1 else 0);
  }

  unfoldable pub sys_set_timezone : Sys nvs.Flash → List ℕ → Sys nvs.Flash
  sys_set_timezone s t = record s {
    flash = if nvs.nvs_open s.flash then nvs.commit (nvs.set_timezone s.flash t) else s.flash;
    tz = some t;
  }

  unfoldable pub sys_set_storage_error : Sys nvs.Flash → Bool → Sys nvs.Flash
  sys_set_storage_error s err = record s { s_storage_error = err }

module _ (nvs : Nvs) (keys : AuthStorage.Nvs) (gate : Gateway) (lib : JsonLib) where
  pub record Settings : Type 0 where
    pub sys : Sys nvs.Flash
    pub auth : Auth keys.Flash
    pub log : Log
    pub gateway : gate.State

  -- The settings of MQTT and of Home Assistant.
  unfoldable pub apply_gateway : gate.State → Json → gate.State
  apply_gateway g doc =
      let applied = gate.mqtt_apply g doc in
      let discovery = as_bool (member doc "ha_discovery") in
      let prefix = as_text (member doc "ha_prefix") in
      if is_some discovery || is_some prefix
      then gate.ha_configure applied (default discovery (gate.ha_enabled applied))
          (default prefix (gate.ha_prefix applied))
      else applied

  -- What a switch of the document does to the state, where the document has it.
  abbrev pub where_set {ℓ κ} : {A : Type ℓ} {S : Type κ} → Option A → (S → A → S) → S → S
  where_set none set s = s
  where_set (some a) set s = set s a

  unfoldable pub apply_sys : Sys nvs.Flash → Json → Sys nvs.Flash
  apply_sys s doc = where_set (as_bool (member doc "ap_disabled")) (sys_set_ap_disabled nvs) (
      where_set (as_bool (member doc "metrics_enabled")) (sys_set_metrics_enabled nvs)
        (where_set (as_text (member doc "timezone")) (sys_set_timezone nvs) s))

  -- The level is the text's first character, where it has one.
  abbrev pub level_of : Option (List ℕ) → ℕ → ℕ
  level_of none old = old
  level_of (some []) old = old
  level_of (some (c ∷ s)) old = c

  unfoldable pub apply_mqtt_log : Log → Json → Log
  apply_mqtt_log l doc =
      let on = as_bool (member doc "log_mqtt_enabled") in
      let level = as_text (member doc "log_mqtt_level") in
      if is_some on || is_some level
      then log_sinks_set_mqtt l (default on l.mqtt_enabled) (level_of level l.mqtt_level)
      else l

  unfoldable pub apply_ws_log : Log → Json → Log
  apply_ws_log l doc =
      let on = as_bool (member doc "log_ws_enabled") in
      let level = as_text (member doc "log_ws_level") in
      if is_some on || is_some level
      then log_sinks_set_ws l (default on l.ws_enabled) (level_of level l.ws_level)
      else l

  -- What follows the time server.
  unfoldable pub apply_rest : Settings → Json → Settings
  apply_rest w doc = record w {
    sys = apply_sys w.sys doc;
    auth = where_set (as_bool (member doc "auth_enabled")) (auth_set_enabled keys) w.auth;
    log = apply_ws_log (apply_mqtt_log w.log doc) doc;
  }

  unfoldable pub system_apply_settings : Settings → List ℕ → Settings × Bool
  system_apply_settings w json = elim (lib.deserialize json) [
    | none ↦ (w, false)
    | some doc ↦
        let g = apply_gateway w.gateway doc in
        elim (as_text (member doc "ntp_server")) [
          | none ↦ (apply_rest (record w { gateway = g }) doc, true)
          | some server ↦
              let (g', ok) = gate.ntp_set_server g server in
              if ok
              then (apply_rest (record w { gateway = g' }) doc, true)
              else (record w { gateway = g' }, false)
        ]
  ]

  -- `rnd` are the random bytes; the token that the caller's buffer gets.
  unfoldable pub system_rotate_token : Settings → ℕ → List ℕ → Settings × Option (List ℕ)
  system_rotate_token w cap rnd =
      let (a, token) = auth_rotate_token keys w.auth cap rnd in (record w { auth = a }, token)
