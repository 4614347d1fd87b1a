-- ===== src/LogRing.antt =====
-- main/log_ring.cpp: the last 128 lines of the log, their text for /api/logs, and the live sinks.
-- The ring is the one that log_ring_init allocated; each critical section is one step.
pub mod Order
pub mod Lines
pub mod Body
pub mod Sinks
pub mod Snapshot
use zhac_mono_core.Prelude.{
  ℕ, zero, suc, ◌+◌, ◌-◌, ◌/◌, ◌%◌, Bool, true, false, ◌||◌, Option, none, some, List, [], ◌∷◌,
  ◌++◌, if◌then◌else◌, ltb, leb, ◌==◌, length, get_or, set, replicate,
}
use zhac_mono_core.Prelude.Text.{bytes, hex_digit, hex_fixed, decimal}

abbrev pub log_ring_size : ℕ
log_ring_size = 128

abbrev pub log_line_max : ℕ
log_line_max = 192

-- `line` is the text before its NUL.
pub record LogEntry : Type 0 where
  pub ts_us : ℕ
  pub line : List ℕ

abbrev pub no_entry : LogEntry
no_entry = record { ts_us = 0; line = [] }

pub record Ring : Type 0 where
  pub slots : List LogEntry
  pub head : ℕ
  pub count : ℕ

abbrev pub empty_ring : Ring
empty_ring = record { slots = replicate 128 no_entry; head = 0; count = 0 }

unfoldable pub push : Ring → LogEntry → Ring
push r e = record {
  slots = set r.slots r.head e;
  head = (r.head + 1) % log_ring_size;
  count = if ltb r.count log_ring_size then r.count + 1 else r.count;
}

-- The walk of log_ring_to_json, from the oldest to the newest: `rounds` entries, from the i-th on.
unfoldable pub walk : ℕ → ℕ → ℕ → List LogEntry → List LogEntry
walk zero i start slots = []
walk (suc rounds) i start slots =
    get_or slots ((start + i) % log_ring_size) no_entry ∷ walk rounds (suc i) start slots

unfoldable pub entries : Ring → List LogEntry
entries r = walk r.count 0 (if r.count == log_ring_size then r.head else 0) r.slots

-- One byte of a line inside a JSON string.
unfoldable pub escaped : ℕ → List ℕ
unfolding hex_fixed
escaped c =
    if c == b'"' || c == b'\\'
    then b'\\' ∷ c ∷ []
    else if ltb c 0x20
    then bytes "\\u" ++ hex_fixed hex_digit 4 c
    else c ∷ []

-- The loop over a line's bytes, which stops where less than seven bytes of `cap` are left.
unfoldable pub put_line : ℕ → List ℕ → List ℕ → List ℕ
put_line cap out [] = out
put_line cap out (c ∷ line) = elim (leb cap (length out + 6)) [
  | true ↦ out
  | false ↦ put_line cap (out ++ escaped c) line
]

-- One entry of the list; none is a return of 0.
unfoldable pub put_entry : ℕ → Bool → List ℕ → LogEntry → Option (List ℕ)
put_entry cap is_first out e =
    let opened = out ++ (if is_first then bytes "\"" else bytes ",\"") in
    let stamped = opened ++ (decimal (e.ts_us / 1000) ++ bytes " ") in
    let text = put_line cap stamped e.line in
    if leb cap (length out + 4)
    then none
    else if leb cap (length stamped)
    then none
    else if leb cap (length text + 2)
    then none
    else some (text ++ bytes "\"")

unfoldable pub put_entries : ℕ → Bool → List ℕ → List LogEntry → Option (List ℕ)
put_entries cap is_first out [] = some out
put_entries cap is_first out (e ∷ es) = elim (put_entry cap is_first out e) [
  | none ↦ none
  | some text ↦ put_entries cap false text es
]

unfoldable pub close_list : ℕ → Option (List ℕ) → Option (List ℕ)
close_list cap none = none
close_list cap (some out) = if ltb cap (length out + 3) then none else some (out ++ bytes "]}")

-- The text in a buffer of `cap` bytes, before its NUL; none is a return of 0.
unfoldable pub log_ring_to_json : Ring → ℕ → Option (List ℕ)
log_ring_to_json r cap =
    if ltb cap 16
    then none
    else close_list cap (put_entries cap true (bytes "{\"logs\":[") (entries r))
