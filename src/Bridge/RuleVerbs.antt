-- ===== src/Bridge/RuleVerbs.antt =====
-- main/ws_bridge.cpp: rule.*, over the rule engine and its store.
use zhac_mono_core.Prelude.{
  ℕ, ◌+◌, Bool, true, false, Option, none, some, List, [], ◌∷◌, ◌++◌, ◌&&◌, not, ◌==◌, leb,
  if◌then◌else◌, length, default,
}
use zhac_mono_core.Prelude.Text.{bytes, decimal}
use zhac_mono_core.Document.{
  JsonLib, boolean, number, text, as_text, bool_or, uint_or, object_of, serialize_to,
}
use zhac_mono_core.Bridge.World.{Fd, Action, reply, Platform, World, Handler, RuleSlot, arg}
use zhac_mono_core.Bridge.Reply.{send_err, reply_ok_or_err}
use zhac_mono_core.Bridge.Push.{rule_source}

abbrev pub rule_cap : ℕ
rule_cap = 16384

-- One rule as its JSON object, cut off at the end of a buffer of 768 bytes.
unfoldable pub rule_row : JsonLib → RuleSlot → List ℕ
rule_row lib s =
    serialize_to lib
      (object_of (
        (bytes "id", number s.rule_id)
        ∷ (bytes "enabled", boolean s.enabled)
        ∷ (bytes "trigger_type", number s.trigger_type)
        ∷ (bytes "rule_type", number s.rule_type)
        ∷ (bytes "name", text s.name)
        ∷ (bytes "dsl", text (rule_source s))
        ∷ []))
      768

-- The loop over the rules; `i` is the index of the next one.
unfoldable pub rule_rows : JsonLib → ℕ → List RuleSlot → List ℕ → List ℕ
unfolding rule_row
rule_rows lib i [] out = out
rule_rows lib i (s ∷ ss) out =
    let row = rule_row lib s in
    let rest = rule_rows lib (i + 1) ss ((if i == 0 then out else out ++ bytes ",") ++ row) in
    if leb rule_cap (length out + length row + 4) then out else rest

abbrev pub rules_head : ℕ → List ℕ
rules_head id = bytes "{\"id\":" ++ (decimal id ++ bytes ",\"ok\":true,\"data\":[")

-- A rule's text that is missing or empty.
abbrev pub is_blank : Option (List ℕ) → Bool
is_blank none = true
is_blank (some []) = true
is_blank (some (c ∷ s)) = false

module _ (p : Platform) where
  -- `rules_size` is the size of the array of rules.
  unfoldable pub cmd_rule_list : Handler p
  cmd_rule_list w fd id doc =
      let made = rule_rows p.lib 0 (p.hub.rules_load_all w.core) (rules_head id) ++ bytes "]}" in
      if not (p.hub.allocates w.core p.hub.rules_size && p.hub.allocates w.core rule_cap)
      then (w, send_err fd id (bytes "oom"))
      else (w, reply fd made (length made) ∷ [])

  -- What a change of a rule answers: its error is what the engine last said.
  abbrev pub compiled : World p → p.hub.State × Bool → Fd → ℕ → World p × List Action
  compiled w (s, ok) fd id = (
    record w { core = s },
    if ok then reply_ok_or_err fd id true [] else send_err fd id (p.hub.dsl_last_error s),
  )

  abbrev pub changed_rule : World p → p.hub.State × Bool → Fd → ℕ → World p × List Action
  changed_rule w (s, ok) fd id =
      (record w { core = s }, reply_ok_or_err fd id ok (bytes "rule not found"))

  unfoldable pub cmd_rule_create : Handler p
  cmd_rule_create w fd id doc =
      let name = default (as_text (arg doc "name")) [] in
      let dsl = as_text (arg doc "dsl") in
      if is_blank dsl
      then (w, send_err fd id (bytes "missing dsl"))
      else compiled w (p.hub.rules_add w.core name (default dsl [])) fd id

  unfoldable pub cmd_rule_update : Handler p
  cmd_rule_update w fd id doc =
      let rid = uint_or 16 (arg doc "id") 0 in
      let name = default (as_text (arg doc "name")) [] in
      elim (as_text (arg doc "dsl")) [
        | none ↦ (w, send_err fd id (bytes "missing id/dsl"))
        | some dsl ↦
            if rid == 0
            then (w, send_err fd id (bytes "missing id/dsl"))
            else compiled w (p.hub.rules_update w.core rid name dsl) fd id
      ]

  unfoldable pub cmd_rule_enable : Handler p
  cmd_rule_enable w fd id doc =
      let rid = uint_or 16 (arg doc "id") 0 in
      if rid == 0
      then (w, send_err fd id (bytes "missing id"))
      else changed_rule w (p.hub.rules_enable w.core rid (bool_or (arg doc "enabled") false)) fd id

  unfoldable pub cmd_rule_delete : Handler p
  cmd_rule_delete w fd id doc =
      let rid = uint_or 16 (arg doc "id") 0 in
      if rid == 0
      then (w, send_err fd id (bytes "missing id"))
      else changed_rule w (p.hub.rules_delete w.core rid) fd id
