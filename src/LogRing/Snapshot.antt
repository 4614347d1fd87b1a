-- ===== src/LogRing/Snapshot.antt =====
-- main/log_ring.cpp: the snapshot for /api/logs, where the buffer is large enough.
use zhac_mono_core.Prelude.{
  ℕ, sym, ◌+◌, ◌/◌, ◌≤◌, ◌≡◌, refl, ◌∙◌, ap, Bool, true, false, some, List, [], ◌∷◌, ◌++◌,
  if◌then◌else◌, ltb, leb, length, length-append, append-nil, append_assoc, arith,
}
use zhac_mono_core.Prelude.Text.{bytes, decimal}
use zhac_mono_core.LogRing.{
  LogEntry, Ring, entries, escaped, put_line, put_entry, put_entries, close_list, log_ring_to_json,
}
use zhac_mono_core.LogRing.Body.Whole.{escaped_all, escaped-length}

-- One entry as a JSON string: the time in milliseconds, a space and the line.
unfoldable pub entry_text : Bool → LogEntry → List ℕ
entry_text is_first e =
    ((if is_first then bytes "\"" else bytes ",\"") ++ (decimal (e.ts_us / 1000) ++ bytes " "))
    ++ escaped_all e.line
    ++ bytes "\""

unfoldable pub entries_text : Bool → List LogEntry → List ℕ
entries_text is_first [] = []
entries_text is_first (e ∷ es) = entry_text is_first e ++ entries_text false es

line_whole :
    (cap : ℕ) (out line : List ℕ)
    → length out + length (escaped_all line) + 6 ≤ cap
    → put_line cap out line ≡ out ++ escaped_all line
unfolding put_line escaped_all
line_whole cap out [] h = sym (append-nil out)
line_whole cap out (c ∷ line) h =
    let n = length-append (escaped c) (escaped_all line) in
    let room : leb cap (length out + 6) ≡ false = ground (arith, escaped-length c) in
    rw (put_line, room)
      (line_whole cap (out ++ escaped c) line (omega (arith, length-append out (escaped c)))
        ∙ append_assoc out (escaped c) (escaped_all line))

entry_whole :
    (cap : ℕ) (is_first : Bool) (out : List ℕ) (e : LogEntry)
    → length out + length (entry_text is_first e) + 6 ≤ cap
    → put_entry cap is_first out e ≡ some (out ++ entry_text is_first e)
unfolding put_entry entry_text
entry_whole cap is_first out e h =
    let q = if is_first then bytes "\"" else bytes ",\"" in
    let d = decimal (e.ts_us / 1000) ++ bytes " " in
    let esc = escaped_all e.line in
    let stamped = (out ++ q) ++ d in
    let n1 = length-append out q in
    let n2 = length-append (out ++ q) d in
    let n3 = length-append stamped esc in
    let n4 = length-append q d in
    let n5 = length-append (q ++ d) esc in
    let n6 : length (((q ++ d) ++ esc) ++ bytes "\"") ≡ length ((q ++ d) ++ esc) + 1 =
      length-append ((q ++ d) ++ esc) (bytes "\"") in
    let bound : length out + length (((q ++ d) ++ esc) ++ bytes "\"") + 6 ≤ cap = h in
    let a : leb cap (length out + 4) ≡ false = ground arith in
    let b : leb cap (length stamped) ≡ false = ground arith in
    let c : leb cap (length (stamped ++ esc) + 2) ≡ false = ground arith in
    let shape : (((out ++ q) ++ d) ++ esc) ++ bytes "\""
        ≡ out ++ (((q ++ d) ++ esc) ++ bytes "\"") =
      ap (λ x. (x ++ esc) ++ bytes "\"") (append_assoc out q d)
      ∙ ap (λ x. x ++ bytes "\"") (append_assoc out (q ++ d) esc)
      ∙ append_assoc out ((q ++ d) ++ esc) (bytes "\"") in
    rw (a, b, line_whole cap stamped e.line (omega arith)) (rw c (ap some shape))

entries_whole :
    (cap : ℕ) (is_first : Bool) (out : List ℕ) (es : List LogEntry)
    → length out + length (entries_text is_first es) + 6 ≤ cap
    → put_entries cap is_first out es ≡ some (out ++ entries_text is_first es)
unfolding put_entries entries_text
entries_whole cap is_first out [] h = ap some (sym (append-nil out))
entries_whole cap is_first out (e ∷ es) h =
    let t = entry_text is_first e in
    let n = length-append t (entries_text false es) in
    let one = entry_whole cap is_first out e (omega arith) in
    rw (put_entries, one)
      (entries_whole cap false (out ++ t) es (omega (arith, length-append out t))
        ∙ ap some (append_assoc out t (entries_text false es)))

unfoldable pub logs_text : List LogEntry → List ℕ
logs_text es = (bytes "{\"logs\":[" ++ entries_text true es) ++ bytes "]}"

-- Into a buffer with five bytes more than the text, log_ring_to_json writes every line of the ring, whole, from the oldest to the newest.
pub log_ring_to_json-text :
    (r : Ring) (cap : ℕ)
    → length (logs_text (entries r)) + 5 ≤ cap
    → log_ring_to_json r cap ≡ some (logs_text (entries r))
unfolding log_ring_to_json close_list logs_text
log_ring_to_json-text r cap h =
    let body = bytes "{\"logs\":[" ++ entries_text true (entries r) in
    let n : length body ≡ 9 + length (entries_text true (entries r)) =
      length-append (bytes "{\"logs\":[") (entries_text true (entries r)) in
    let m : length (body ++ bytes "]}") ≡ length body + 2 = length-append body (bytes "]}") in
    let large : ltb cap 16 ≡ false = ground arith in
    let last : ltb cap (length body + 3) ≡ false = ground arith in
    rw (large, entries_whole cap true (bytes "{\"logs\":[") (entries r) (omega arith))
      (rw last refl)
