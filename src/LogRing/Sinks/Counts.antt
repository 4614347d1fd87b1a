-- ===== src/LogRing/Sinks/Counts.antt =====
-- main/log_ring.cpp: every line for MQTT is counted once.
use zhac_mono_core.Prelude.{
  ℕ, ◌+◌, ◌^◌, ◌<◌, ◌≡◌, ◌∙◌, inl, inr, true, ◌&&◌, some, List, Bool-cases, arith,
}
use zhac_mono_core.LogRing.Body.{build_body_json}
use zhac_mono_core.LogRing.Sinks.{
  Log, Outside, level_passes, level_topic_suffix, mqtt_rate_allow, bump, publish, to_mqtt, to_ws,
  to_sinks, dispatch_to_sinks,
}

-- The lines that MQTT took or dropped.
unfoldable pub handled : Log → ℕ
handled s = s.mqtt_published + s.mqtt_dropped_rate + s.mqtt_dropped_disc

to_ws-handled : (s : Log) (level : ℕ) (body : List ℕ) → handled (to_ws s level body) ≡ handled s
unfolding handled to_ws
to_ws-handled s level body = ground arith

rate-handled : (s : Log) (timer_us : ℕ) → handled (mqtt_rate_allow s timer_us).0 ≡ handled s
unfolding handled mqtt_rate_allow
rate-handled s timer_us = ground arith

to_mqtt-handled :
    (s : Log) (o : Outside) (level : ℕ) (topic body : List ℕ)
    → s.mqtt_published + 1 < 2 ^ 32
    → s.mqtt_dropped_rate + 1 < 2 ^ 32
    → s.mqtt_dropped_disc + 1 < 2 ^ 32
    → o.format_topic (level_topic_suffix level) ≡ some topic
    → handled (to_mqtt s o level body) ≡ handled s + 1
unfolding handled to_mqtt mqtt_rate_allow bump publish
to_mqtt-handled s o level topic body p r d t = rw t (ground arith)

-- A line whose body fits, with the buffers allocated, MQTT on, a level that it takes and a topic that can be made, is counted once: as
-- published, as dropped by the rate or as dropped without a connection, where none of the three counters is about to wrap.
pub dispatch_to_sinks-handled :
    (s : Log) (o : Outside) (src tag msg body topic : List ℕ) (level : ℕ)
    → o.allocated ≡ true
    → s.mqtt_enabled ≡ true
    → level_passes level s.mqtt_level ≡ true
    → build_body_json 384 o.time src tag msg ≡ some body
    → o.format_topic (level_topic_suffix level) ≡ some topic
    → s.mqtt_published + 1 < 2 ^ 32
    → s.mqtt_dropped_rate + 1 < 2 ^ 32
    → s.mqtt_dropped_disc + 1 < 2 ^ 32
    → handled (dispatch_to_sinks s o src level tag msg) ≡ handled s + 1
unfolding dispatch_to_sinks to_sinks
dispatch_to_sinks-handled s o src tag msg body topic level a on pass b t p r d =
    let one = to_mqtt-handled s o level topic body p r d t in
    elim (Bool-cases (s.ws_enabled && level_passes level s.ws_level)) [
      | inl e ↦ simp (a, on, b, pass, e) (to_ws-handled (to_mqtt s o level body) level body ∙ one)
      | inr e ↦ simp (a, on, b, pass, e) one
    ]
