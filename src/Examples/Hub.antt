-- ===== src/Examples/Hub.antt =====
-- A hub with two devices, a store of one entry and a JSON library of three texts, for the examples.
use zhac_mono_core.Prelude.{
  ℕ, ◌%◌, ◌^◌, ◌≡◌, refl, Bool, true, false, ◌||◌, Option, none, some, List, [], ◌∷◌, ◌==◌,
  if◌then◌else◌, replicate, arith, length,
}
use zhac_mono_core.Prelude.Text.{bytes}
use zhac_mono_core.Document.{Json, JsonLib, text, object_of, same, number}
use zhac_mono_core.Auth.Lockout.{Turn}
use zhac_mono_core.Devlist.Page.{Zap, IsZap}
use zhac_mono_core.Options.{Shadow, Options}
use zhac_mono_core.Options as DeviceOptions
use zhac_mono_core.Bridge.World.{Ws, IsWs, Hub, Platform, World, DevCmdResult, Handler}
use zhac_mono_core.Bridge.Reply.{send_err}
use zhac_mono_core.Bridge.Verbs.{Verb}
use zhac_mono_core.Examples.Flash.{flash_nvs}

pub same_self : (s : List ℕ) → same s s ≡ true
unfolding same
same_self [] = refl
same_self (c ∷ s) = ground (arith, same_self s)

-- A device is its address.
abbrev pub lamps_zap : Zap
lamps_zap = record {
  Device = ℕ;
  ieee_addr = λ d. d % 2 ^ 64;
  nwk_addr = λ d. 7;
  friendly_name = λ d. bytes "lamp";
  model_id = λ d. bytes "m";
  manufacturer_name = λ d. bytes "v";
  last_seen = λ d. bytes "0";
  link_quality = λ d. 200;
  battery_pct = λ d. bytes "-1";
  endpoint_count = λ d. 1;
  is_removed = λ d. d == 9;
  resolve_labels = λ m v. ([], []);
}

pub lamps_zap-IsZap : IsZap lamps_zap
lamps_zap-IsZap = record {
  ieee_small = λ (d : ℕ). omega arith;
  nwk_small = λ d. omega arith;
  lqi_small = λ d. omega arith;
  eps_small = λ d. omega arith;
  seen_short = λ d. omega arith;
  battery_short = λ d. omega arith;
}

abbrev pub wrong_doc : Json
wrong_doc = object_of (
    (bytes "cmd", text (bytes "auth"))
    ∷ (bytes "args", object_of ((bytes "token", text (bytes "guess")) ∷ []))
    ∷ [])

abbrev pub ping_doc : Json
ping_doc = object_of ((bytes "id", number 5) ∷ (bytes "cmd", text (bytes "ping")) ∷ [])

abbrev pub members_doc : Json
members_doc = object_of ((bytes "id", number 3) ∷ (bytes "debounce_ms", number 40) ∷ [])

-- "a" and "p" are the two documents above, any other text but the empty one the third, which is written as "{}".
abbrev pub three_texts : JsonLib
three_texts = record {
  deserialize = λ s. elim s [
    | [] ↦ none
    | c ∷ t ↦
        if c == b'a' then some wrong_doc else if c == b'p' then some ping_doc else some members_doc
  ];
  serialize = λ j. bytes "{}";
}

abbrev pub holds : List ℕ → ℕ → Bool
holds [] n = false
holds (m ∷ s) n = m == n || holds s n

abbrev pub lists_ws : Ws
lists_ws = record {
  State = List ℕ;
  fd_is_authed = λ s n. holds s n;
  fd_set_authed = λ s n. n ∷ s;
  client_count = λ s. length s;
}

pub lists_ws-IsWs : IsWs lists_ws
lists_ws-IsWs = record {
  authed_self = λ (s : List ℕ) (n : ℕ). ground arith;
  authed_other = λ (s : List ℕ) (n m : ℕ) h. ground arith;
}

abbrev fine : DevCmdResult
fine = record { ok = true; str = bytes "ok" }

abbrev pub lamps_hub : Hub
lamps_hub = record {
  State = List ℕ;
  zap = lamps_zap;
  Value = ℕ;
  uptime_s = λ s. 12;
  allocates = λ s n. true;
  relay_running = λ s. true;
  envelope_build = λ cap event payload. payload;
  pool = λ s. s;
  pool_count = λ s. length s;
  find_by_ieee = λ s n. none;
  interview_trigger = λ s n. (s, true);
  adapter_configure = λ s n m a b. (s, true);
  coordinator_ieee = λ s. 1;
  zdo_bind = λ s a b c d e. (s, true);
  zdo_unbind = λ s a b c d e. (s, true);
  cmd_rename = λ s n t. (s, fine);
  cmd_remove = λ s n b. (s, fine);
  cmd_permit_join = λ s n. (s, fine);
  permit_join_status = λ s. (false, bytes "0");
  value_from_json = λ j. some 1;
  value_int = λ n. n;
  bad_value = fine;
  cmd_set_attr = λ s n e k v. (n ∷ s, fine);
  rules_size = 100;
  rules_load_all = λ s. [];
  rules_load = λ s n. none;
  rules_add = λ s a b. (s, true);
  rules_update = λ s n a b. (s, true);
  rules_enable = λ s n b. (s, true);
  rules_delete = λ s n. (s, true);
  dsl_last_error = λ s. [];
  script_list = λ s. [];
  script_read = λ s n. none;
  script_delete = λ s n. (s, true);
  run_script = λ s n. (s, true);
  check_syntax = λ s a b. record { ok = true; err = []; line = 0 };
}

abbrev pub quiet_shadow : Shadow
quiet_shadow = record {
  State = List (ℕ × ℕ);
  set_occupancy_timeout = λ s a n. (s, true);
  set_debounce_ms = λ s a n. ((a, n) ∷ s, true);
  set_throttle_ms = λ s a n. (s, true);
}

-- One entry, which the next write replaces.
abbrev pub one_entry : DeviceOptions.Nvs
one_entry = record {
  Flash = Option (List ℕ × List ℕ);
  nvs_open = λ f. true;
  get_str = λ f k. elim f [ none ↦ none | some (j, v) ↦ if same j k then some v else none ];
  set_str = λ f k v. (some (k, v), true);
  commit = λ f. (f, true);
  keys = λ f. elim f [ none ↦ [] | some (j, v) ↦ j ∷ [] ];
}

pub one_entry-IsNvs : DeviceOptions.IsNvs one_entry
one_entry-IsNvs = record { str_self = λ f k v h. rw (same_self k) refl; commit_str = λ f k. refl }

abbrev pub home : Platform
home = record {
  Flash = Unit {0};
  ws = lists_ws;
  hub = lamps_hub;
  groups = flash_nvs true;
  shadow = quiet_shadow;
  options = one_entry;
  lib = three_texts;
}

abbrev pub home_token : List ℕ
home_token = replicate 32 b'k'

abbrev pub home_world : World home
home_world = record {
  auth = record {
    s_token = home_token;
    s_enabled = true;
    s_storage_error = false;
    s_buckets = [];
    s_salt = [];
    s_hash = [];
    s_pw_set = false;
    flash = tt;
    effects = [];
  };
  clients = [];
  core = 4 ∷ 2 ∷ [];
  groups = record { words = λ k. none; blobs = λ k. none };
  options = record { s_open = false; flash = none; state = [] };
}

abbrev pub silent : Verb → Handler home
silent v w fd id doc = (w, send_err fd id (bytes "not here"))

abbrev pub now : Turn
now = record { taken = true; now = 1000 }
