-- ===== src/Examples/Logs.antt =====
-- Examples of the log: lines kept, parsed and sent.
use zhac_mono_core.Prelude.{
  ℕ, zero, suc, List, All, ◌<◌, ◌+◌, ◌-◌, ◌≡◌, refl, ◌≤◌, true, false, some, none, [], ◌∷◌, length,
  drop, arith,
}
use zhac_mono_core.Prelude.Text.{bytes, decimal}
use zhac_mono_core.LogRing.{
  Ring, push, LogEntry, empty_ring, walk, entries, log_ring_to_json, escaped,
}
use zhac_mono_core.LogRing.Order.{push_all, push_all-entries}
use zhac_mono_core.LogRing.Snapshot.{entry_text, logs_text, entries_text, log_ring_to_json-text}
use zhac_mono_core.LogRing.Body.Whole.{escaped_all}
use zhac_mono_core.LogRing.Sinks.{Log, mqtt_rate_allow}
use zhac_mono_core.LogRing.Sinks.Rate.{Within, again, mqtt_rate_allow-second}

abbrev booted : LogEntry
booted = record { ts_us = 2000; line = bytes "I (2) main: up" }

push_all-entries_example :
    entries (push_all empty_ring (booted ∷ [])) ≡ drop (1 - 128) (booted ∷ [])
push_all-entries_example = push_all-entries (booted ∷ [])

abbrev one_line : Ring
one_line = push empty_ring booted

one_line-fits : length (logs_text (entries one_line)) + 5 ≤ 256
unfolding logs_text entries walk entries_text push entry_text escaped escaped_all decimal
one_line-fits = omega arith

log_ring_to_json-text_example : log_ring_to_json one_line 256 ≡ some (logs_text (entries one_line))
log_ring_to_json-text_example = log_ring_to_json-text one_line 256 one_line-fits

abbrev quiet : Log
quiet = record {
  s_ring = none;
  mqtt_enabled = true;
  mqtt_level = b'I';
  ws_enabled = false;
  ws_level = b'I';
  mqtt_published = 0;
  mqtt_dropped_rate = 0;
  mqtt_dropped_disc = 0;
  rate_count = 0;
  rate_epoch = 0;
  sent = [];
}

-- `n` calls, a microsecond apart, the last at 1000000.
abbrev calls : ℕ → List ℕ
calls zero = []
calls (suc n) = (1000000 + n) ∷ calls n

calls-Within : (n : ℕ) → n < 1000 → All (Within 1) (calls n)
calls-Within zero h = tt
calls-Within (suc n) h = (omega arith, calls-Within n (omega arith))

-- The 257th call of the second 1, half a second after the others.
mqtt_rate_allow-second_example :
    ((mqtt_rate_allow quiet 1000000).1 ≡ true)
    × ((mqtt_rate_allow (again (calls 255) (mqtt_rate_allow quiet 1000000).0) 1500000).1 ≡ true)
mqtt_rate_allow-second_example =
    mqtt_rate_allow-second quiet 1 1000000 1500000 (calls 255) (λ e. ground arith) refl
      (calls-Within 255 (omega arith)) refl
