-- ===== src/Bridge/Push.antt =====
-- main/ws_bridge.cpp: an event goes to the browsers' sockets in an envelope and to the relay bare.
pub mod Whole
use zhac_mono_core.Prelude.{
  ℕ, zero, suc, ◌+◌, ◌-◌, Bool, true, false, ◌&&◌, ◌||◌, not, Option, none, some, List, [], ◌∷◌,
  ◌++◌, ◌==◌, ltb, leb, if◌then◌else◌, length, take, String,
}
use zhac_mono_core.Prelude.Text.{bytes, hex_fixed, hex_digit_upper}
use zhac_mono_core.Document.{
  Json, ℤ, number, null, boolean, integer, text, field, end, object, object_of, serialize_to,
  fields_of,
}
use zhac_mono_core.Bridge.World.{Platform, World, Action, broadcast, relay_event, RuleSlot}

-- The bytes before a NUL.
unfoldable pub c_string : List ℕ → List ℕ
c_string [] = []
c_string (c ∷ s) = let rest = c_string s in if c == 0 then [] else c ∷ rest

-- The two parts of a reading's value, by val_type; `printed_float` is the text of a number stored x100.
pub data AttrValue : Type 0 where
  val_int val_bool : ℤ → AttrValue
  val_str : List ℕ → AttrValue
  val_float : Json → AttrValue
  val_other : AttrValue

pub record ZclAttrEvent : Type 0 where
  pub ieee : ℕ
  pub key : List ℕ
  pub value : AttrValue
  pub nwk : ℕ
  pub ep : ℕ
  pub cluster : ℕ
  pub attr_id : ℕ

pub data RuleChange : Type 0 where
  rule_added rule_updated rule_deleted : RuleChange

abbrev pub address : ℕ → List ℕ
address ieee = bytes "0x" ++ hex_fixed hex_digit_upper 16 ieee

-- The member "value", absent for another type; a string is at most `attr_str_max` bytes.
abbrev pub value_field : ℕ → AttrValue → List (List ℕ × Json)
value_field attr_str_max (val_int n) = (bytes "value", integer n) ∷ []
value_field attr_str_max (val_bool n) = (bytes "value", integer n) ∷ []
value_field attr_str_max (val_str s) = (bytes "value", text (c_string (take attr_str_max s))) ∷ []
value_field attr_str_max (val_float v) = (bytes "value", v) ∷ []
value_field attr_str_max val_other = []

-- The payload of "attr.changed" at the time `now`.
unfoldable pub attr_payload : ℕ → ZclAttrEvent → ℕ → Json
attr_payload attr_str_max z now = object_of (
    (bytes "ieee", text (address z.ieee))
    ∷ (bytes "key", text z.key)
    ∷ (value_field attr_str_max z.value
        ++ ((bytes "nwk", number z.nwk)
            ∷ (bytes "ep", number z.ep)
            ∷ (bytes "cluster", number z.cluster)
            ∷ (bytes "attr_id", number z.attr_id)
            ∷ (if leb 1577836800 now then (bytes "ts", number now) ∷ [] else []))))

abbrev pub rule_source : RuleSlot → List ℕ
rule_source s = c_string (take 500 s.src)

unfoldable pub rule_payload : ℕ → RuleSlot → Json
rule_payload id s = object_of (
    (bytes "id", number id)
    ∷ (bytes "name", text s.name)
    ∷ (bytes "dsl", text (rule_source s))
    ∷ (bytes "enabled", boolean s.enabled)
    ∷ [])

unfoldable pub join_text : ℕ → List ℕ → List ℕ
join_text ieee friendly =
    bytes "{\"ieee\":\""
    ++ (address ieee
        ++ (bytes "\",\"friendly\":\""
            ++ (friendly ++ (bytes "\",\"name\":\"" ++ (friendly ++ bytes "\"}")))))

unfoldable pub leave_text : ℕ → List ℕ
leave_text ieee = bytes "{\"ieee\":\"" ++ (address ieee ++ bytes "\"}")

module _ (p : Platform) where
  unfoldable pub push_listeners : World p → Bool
  push_listeners w = ltb 0 (p.ws.client_count w.clients) || p.hub.relay_running w.core

  -- remote_client_publish_event is called in either case.
  unfoldable pub push_event : World p → List ℕ → List ℕ → List Action
  push_event w event payload =
      let cap = length payload + length event + 32 in
      let env = p.hub.envelope_build cap event payload in
      (if ltb 0 (p.ws.client_count w.clients) && p.hub.allocates w.core cap && not (length env == 0)
        then broadcast env ∷ []
        else [])
      ++ relay_event event payload ∷ []

  -- A payload that `cap` bytes do not hold whole is dropped.
  unfoldable pub push_small : World p → List ℕ → Json → ℕ → List Action
  push_small w event doc cap =
      let payload = serialize_to p.lib doc cap in
      if length payload == 0 || leb cap (length payload) then [] else push_event w event payload

  unfoldable pub ws_push : World p → List ℕ → Json → List Action
  ws_push w event doc = if push_listeners w then push_small w event doc 1024 else []

  unfoldable pub on_zcl_attr : World p → ℕ → ZclAttrEvent → ℕ → List Action
  on_zcl_attr w attr_str_max z now =
      if push_listeners w
      then push_small w (bytes "attr.changed") (attr_payload attr_str_max z now) 288
      else []

  -- `friendly` is the array of 30 bytes.
  unfoldable pub on_device_join : World p → ℕ → List ℕ → List Action
  on_device_join w ieee friendly =
      let made = join_text ieee (c_string (take 30 friendly)) in
      if push_listeners w && ltb (length made) 192
      then push_event w (bytes "device.added") made
      else []

  unfoldable pub on_device_leave : World p → ℕ → List Action
  on_device_leave w ieee =
      let made = leave_text ieee in
      if push_listeners w && ltb (length made) 48
      then push_event w (bytes "device.removed") made
      else []

  -- `got` tells whether there is memory for the slot.
  unfoldable pub on_rule_changed : World p → ℕ → RuleChange → Bool → List Action
  on_rule_changed w id rule_deleted got =
      if push_listeners w
      then ws_push w (bytes "rule.deleted") (object_of ((bytes "id", number id) ∷ []))
      else []
  on_rule_changed w id change got =
      if not (push_listeners w && got) then [] else elim (p.hub.rules_load w.core id) [
        | none ↦ []
        | some s ↦
            ws_push w (elim change [ rule_added ↦ bytes "rule.added" | _ ↦ bytes "rule.updated" ])
              (rule_payload id s)
      ]
