-- ===== src/LogRing/Sinks.antt =====
-- main/log_ring.cpp: the live sinks, their settings and counters, and the two ways a line comes in.
pub mod Rate
pub mod Counts
use zhac_mono_core.Prelude.{
  ℕ, ◌+◌, ◌*◌, ◌/◌, ◌%◌, ◌^◌, Bool, true, false, ◌||◌, ◌&&◌, not, Option, none, some, List, [], ◌∷◌,
  ◌++◌, if◌then◌else◌, ltb, leb, ◌==◌, length, take, String,
}
use zhac_mono_core.Prelude.Text.{bytes, decimal}
use zhac_mono_core.LogRing.{LogEntry, Ring, empty_ring, push}
use zhac_mono_core.LogRing.Lines.{LogParts, clean_line, parse_line}
use zhac_mono_core.LogRing.Body.{build_body_json}

-- A message for MQTT, under its topic, and a frame for every WebSocket client.
pub data Sent : Type 0 where
  mqtt_publish : List ℕ → List ℕ → Sent
  ws_broadcast : List ℕ → Sent

-- The atomics of the file, the ring (none before it is allocated), and what was sent, the oldest first.
pub record Log : Type 0 where
  pub s_ring : Option Ring
  pub mqtt_enabled : Bool
  pub mqtt_level : ℕ
  pub ws_enabled : Bool
  pub ws_level : ℕ
  pub mqtt_published : ℕ
  pub mqtt_dropped_rate : ℕ
  pub mqtt_dropped_disc : ℕ
  pub rate_count : ℕ
  pub rate_epoch : ℕ
  pub sent : List Sent

-- What the rest of the firmware answers while one line is handled: the time of day, esp_timer_get_time(), whether the three
-- buffers were allocated, whether the MQTT client is connected, and the topic that mqtt_gw_format_topic makes.
pub record Outside : Type 0 where
  pub time : ℕ
  pub timer_us : ℕ
  pub allocated : Bool
  pub connected : Bool
  pub format_topic : List ℕ → Option (List ℕ)

unfoldable pub level_order : ℕ → ℕ
level_order c =
    if c == b'E'
    then 0
    else if c == b'W'
    then 1
    else if c == b'I'
    then 2
    else if c == b'D'
    then 3
    else if c == b'V'
    then 4
    else 2

unfoldable pub level_passes : ℕ → ℕ → Bool
level_passes line_level min_level = leb (level_order line_level) (level_order min_level)

unfoldable pub level_topic_suffix : ℕ → List ℕ
level_topic_suffix c =
    if c == b'E'
    then bytes "log/err"
    else if c == b'W'
    then bytes "log/warn"
    else if c == b'I'
    then bytes "log/info"
    else if c == b'D'
    then bytes "log/debug"
    else if c == b'V'
    then bytes "log/verbose"
    else bytes "log/info"

-- The counter is a uint8_t, the epoch a uint32_t.
unfoldable pub mqtt_rate_allow : Log → ℕ → Log × Bool
mqtt_rate_allow s timer_us =
    let now = timer_us / 1000000 % 2 ^ 32 in
    if not (s.rate_epoch == now)
    then (record s { rate_epoch = now; rate_count = 1 }, true)
    else (record s { rate_count = (s.rate_count + 1) % 256 }, ltb s.rate_count 50)

unfoldable pub bump : ℕ → ℕ
bump n = (n + 1) % 2 ^ 32

unfoldable pub publish : Log → Option (List ℕ) → List ℕ → Log
publish s none body = s
publish s (some topic) body = record s {
  mqtt_published = bump s.mqtt_published;
  sent = s.sent ++ mqtt_publish topic body ∷ [];
}

unfoldable pub to_mqtt : Log → Outside → ℕ → List ℕ → Log
to_mqtt s o level body =
    let gate = mqtt_rate_allow s o.timer_us in
    if not o.connected
    then record s { mqtt_dropped_disc = bump s.mqtt_dropped_disc }
    else if not gate.1
    then record gate.0 { mqtt_dropped_rate = bump gate.0.mqtt_dropped_rate }
    else publish gate.0 (o.format_topic (level_topic_suffix level)) body

unfoldable pub to_ws : Log → ℕ → List ℕ → Log
to_ws s level body =
    let frame =
      bytes "{\"type\":\"log\",\"level\":\""
      ++ (level ∷ bytes "\",\"entry\":" ++ (body ++ bytes "}")) in
    if ltb (length frame) 480 then record s { sent = s.sent ++ ws_broadcast frame ∷ [] } else s

unfoldable pub to_sinks : Log → Outside → ℕ → List ℕ → Log
to_sinks s o level body =
    let first =
      if s.mqtt_enabled && level_passes level s.mqtt_level then to_mqtt s o level body else s in
    if s.ws_enabled && level_passes level s.ws_level then to_ws first level body else first

unfoldable pub dispatch_to_sinks : Log → Outside → List ℕ → ℕ → List ℕ → List ℕ → Log
dispatch_to_sinks s o src level tag msg =
    let done : Log = elim (build_body_json 384 o.time src tag msg) [
      | none ↦ s
      | some body ↦ to_sinks s o level body
    ] in
    if not s.mqtt_enabled && not s.ws_enabled then s else if not o.allocated then s else done

unfoldable pub keep : Log → Ring → ℕ → List ℕ → Log
keep s r timer_us line = record s {
  s_ring = some (push r (record { ts_us = timer_us; line = line }));
}

-- `allocated` is whether the ring's memory was allocated; the hook of esp_log is installed with it.
unfoldable pub log_ring_init : Log → Bool → Log
log_ring_init s allocated = elim s.s_ring [
  | some r ↦ s
  | none ↦ if allocated then record s { s_ring = some empty_ring } else s
]

-- `printed` is what the format and its arguments print; the call of the former sink is not modelled.
unfoldable pub log_vprintf : Log → Outside → List ℕ → Log
log_vprintf s o printed =
    let line = clean_line printed in
    let parts = parse_line line 32 in
    let kept : Log = elim s.s_ring [
      | none ↦ s
      | some r ↦
          dispatch_to_sinks (keep s r o.timer_us line) o (bytes "s3") parts.level parts.tag
            parts.msg
    ] in
    if length printed == 0 then s else kept

unfoldable pub p4_line : ℕ → ℕ → List ℕ → List ℕ → List ℕ
p4_line level timer_us tag msg = take 191 (
    level ∷ bytes " ("
    ++ (decimal (timer_us / 1000 % 2 ^ 32) ++ (bytes ") " ++ (tag ++ (bytes ": " ++ msg)))))

-- `tag` is none for a null pointer; `level` 0 is none.
unfoldable pub log_sinks_publish_p4 : Log → Outside → ℕ → Option (List ℕ) → List ℕ → Log
log_sinks_publish_p4 s o level tag msg =
    let lvl = if level == 0 then b'I' else level in
    let name : List ℕ = elim tag [ none ↦ bytes "p4" | some t ↦ t ] in
    let kept : Log = elim s.s_ring [
      | none ↦ s
      | some r ↦ keep s r o.timer_us (p4_line lvl o.timer_us name msg)
    ] in
    dispatch_to_sinks kept o (bytes "p4") lvl name msg

unfoldable pub log_sinks_set_mqtt : Log → Bool → ℕ → Log
log_sinks_set_mqtt s on min_level = record s {
  mqtt_enabled = on;
  mqtt_level = if min_level == 0 then b'I' else min_level;
}

unfoldable pub log_sinks_set_ws : Log → Bool → ℕ → Log
log_sinks_set_ws s on min_level = record s {
  ws_enabled = on;
  ws_level = if min_level == 0 then b'I' else min_level;
}
