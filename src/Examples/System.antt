-- ===== src/Examples/System.antt =====
-- Examples of the system settings, over a storage that keeps what is written.
use zhac_mono_core.Prelude.{
  ℕ, ◌+◌, ◌≡◌, ◌≢◌, refl, true, false, Option, some, none, List, [], ◌∷◌, arith, ◌⊎◌,
}
use zhac_mono_core.Prelude.Text.{bytes}
use zhac_mono_core.Document.{Json, JsonLib, boolean, text, object_of, member, lookup, same, as_text}
use zhac_mono_core.System as System
use zhac_mono_core.System.{
  Flag, metrics_en, ap_disabled, sys_state_init, Gateway, Settings, apply_gateway,
  system_apply_settings,
}
use zhac_mono_core.System.Restart.{
  IsSound, Change, metrics, access_point, timezone, changes, sys_state_init-changes,
}
use zhac_mono_core.System.Refused.{IsServerRefused, system_apply_settings-refused}
use zhac_mono_core.Examples.AuthFlash.{auth_nvs, empty_namespace}

record Cells : Type 0 where
  metrics_cell : Option ℕ
  ap_cell : Option ℕ
  zone : Option (List ℕ)

abbrev cell : Cells → Flag → Option ℕ
cell f metrics_en = f.metrics_cell
cell f ap_disabled = f.ap_cell

abbrev fill : Cells → Flag → ℕ → Cells
fill f metrics_en v = record f { metrics_cell = some v }
fill f ap_disabled v = record f { ap_cell = some v }

abbrev cells_nvs : System.Nvs
cells_nvs = record {
  Flash = Cells;
  nvs_open = λ f. true;
  get_u8 = cell;
  set_u8 = fill;
  get_timezone = λ f. f.zone;
  set_timezone = λ f t. record f { zone = some t };
  commit = λ f. f;
}

fill_self : (f : Cells) (k : Flag) (v : ℕ) → cell (fill f k v) k ≡ some v
fill_self f metrics_en v = refl
fill_self f ap_disabled v = refl

fill_other : (f : Cells) (k j : Flag) (v : ℕ) → k ≢ j → cell (fill f k v) j ≡ cell f j
fill_other f metrics_en metrics_en v h = absurd (h refl)
fill_other f metrics_en ap_disabled v h = refl
fill_other f ap_disabled metrics_en v h = refl
fill_other f ap_disabled ap_disabled v h = absurd (h refl)

fill_zone : (f : Cells) (k : Flag) (v : ℕ) → (fill f k v).zone ≡ f.zone
fill_zone f metrics_en v = refl
fill_zone f ap_disabled v = refl

zone_cell : (f : Cells) (t : List ℕ) (k : Flag) → cell (record f { zone = some t }) k ≡ cell f k
zone_cell f t metrics_en = refl
zone_cell f t ap_disabled = refl

cells_nvs-IsSound : IsSound cells_nvs
cells_nvs-IsSound = record {
  opens = λ f. refl;
  u8_self = fill_self;
  u8_other = fill_other;
  u8_timezone = fill_zone;
  timezone_self = λ f t. refl;
  timezone_u8 = zone_cell;
  commit_u8 = λ f k. refl;
  commit_timezone = λ f. refl;
}

abbrev no_cells : Cells
no_cells = record { metrics_cell = none; ap_cell = none; zone = none }

abbrev some_changes : List Change
some_changes = metrics true ∷ timezone (bytes "CET-1CEST") ∷ access_point true ∷ metrics false ∷ []

sys_state_init-changes_example :
    ((sys_state_init cells_nvs
        (changes cells_nvs
          (sys_state_init cells_nvs no_cells)
          some_changes).flash).s_metrics_enabled
      ≡ (changes cells_nvs (sys_state_init cells_nvs no_cells) some_changes).s_metrics_enabled)
    × ((sys_state_init cells_nvs
          (changes cells_nvs (sys_state_init cells_nvs no_cells) some_changes).flash).s_ap_disabled
        ≡ (changes cells_nvs (sys_state_init cells_nvs no_cells) some_changes).s_ap_disabled)
    × ((sys_state_init cells_nvs
          (changes cells_nvs (sys_state_init cells_nvs no_cells) some_changes).flash).tz
        ≡ (changes cells_nvs (sys_state_init cells_nvs no_cells) some_changes).tz)
sys_state_init-changes_example =
    sys_state_init-changes cells_nvs cells_nvs-IsSound no_cells some_changes
      (tt, ((omega arith, omega arith), (tt, (tt, tt))))

-- A time server that is refused.
abbrev ntp_doc : Json
ntp_doc =
    object_of
      ((bytes "ntp_server", text (bytes "?")) ∷ (bytes "metrics_enabled", boolean true) ∷ [])

abbrev ntp_lib : JsonLib
ntp_lib = record { deserialize = λ s. some ntp_doc; serialize = λ j. bytes "{}" }

abbrev counting : Gateway
counting = record {
  State = ℕ;
  mqtt_apply = λ s j. s + 1;
  ha_enabled = λ s. true;
  ha_prefix = λ s. [];
  ha_configure = λ s b t. s;
  ntp_set_server = λ s t. (s, false);
}

abbrev hub_settings : Settings cells_nvs (auth_nvs true) counting ntp_lib
hub_settings = record {
  sys = sys_state_init cells_nvs no_cells;
  auth = record {
    s_token = [];
    s_enabled = false;
    s_storage_error = false;
    s_buckets = [];
    s_salt = [];
    s_hash = [];
    s_pw_set = false;
    flash = empty_namespace;
    effects = [];
  };
  log = record {
    s_ring = none;
    mqtt_enabled = true;
    mqtt_level = b'I';
    ws_enabled = false;
    ws_level = b'I';
    mqtt_published = 0;
    mqtt_dropped_rate = 0;
    mqtt_dropped_disc = 0;
    rate_count = 0;
    rate_epoch = 0;
    sent = [];
  };
  gateway = 0;
}

system_apply_settings-refused_example :
    ((system_apply_settings cells_nvs
        (auth_nvs true)
        counting
        ntp_lib
        hub_settings
        (bytes "{}")).0.sys
      ≡ hub_settings.sys)
    × ((system_apply_settings cells_nvs
          (auth_nvs true)
          counting
          ntp_lib
          hub_settings
          (bytes "{}")).0.auth
        ≡ hub_settings.auth)
    × ((system_apply_settings cells_nvs
          (auth_nvs true)
          counting
          ntp_lib
          hub_settings
          (bytes "{}")).0.log
        ≡ hub_settings.log)
    × (((ntp_lib.deserialize (bytes "{}") ≡ none)
          × ((system_apply_settings cells_nvs
                (auth_nvs true)
                counting
                ntp_lib
                hub_settings
                (bytes "{}")).0.gateway
              ≡ 0))
        ⊎ IsServerRefused cells_nvs
            (auth_nvs true)
            counting
            ntp_lib
            hub_settings
            (bytes "{}")
            (system_apply_settings cells_nvs
              (auth_nvs true)
              counting
              ntp_lib
              hub_settings
              (bytes "{}")).0.gateway)
unfolding system_apply_settings apply_gateway member lookup same as_text object_of
system_apply_settings-refused_example =
    system_apply_settings-refused cells_nvs (auth_nvs true) counting ntp_lib hub_settings
      (bytes "{}") refl
