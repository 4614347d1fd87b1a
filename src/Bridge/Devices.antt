-- ===== src/Bridge/Devices.antt =====
-- main/ws_bridge.cpp: device.* and zigbee.permit_join, over the Zigbee component and device_cmd.
pub mod Address
use zhac_mono_core.Prelude.{
  ℕ, zero, suc, ◌+◌, ◌*◌, ◌-◌, ◌%◌, ◌^◌, Bool, true, false, ◌&&◌, ◌||◌, not, Option, none, some,
  List, [], ◌∷◌, ◌++◌, ◌==◌, ltb, if◌then◌else◌, length, take, String,
}
use zhac_mono_core.Prelude.Text.{bytes, decimal}
use zhac_mono_core.Document.{Json, as_text, bool_or, natural, member, serialize_to}
use zhac_mono_core.Options.{device_options_set}
use zhac_mono_core.Devlist.Escape.{row_cap}
use zhac_mono_core.Devlist.Page.{Zap, parse_ieee, page_text, page_cap, list_reply}
use zhac_mono_core.Bridge.World.{
  Fd, local, relay, Action, reply, Platform, World, Handler, DevCmdResult, arg,
}
use zhac_mono_core.Bridge.Reply.{printed, send_err, reply_ok_or_err}

-- One page for the relay or a caller with a cursor; else the whole list.
abbrev pub wants_page : Fd → Option (List ℕ) → Bool
wants_page relay cursor = true
wants_page (local n) none = false
wants_page (local n) (some c) = true

-- The text of a reply that is built in a buffer; none is no reply at all.
abbrev pub answer : Fd → Option (List ℕ) → List Action
answer fd none = []
answer fd (some t) = reply fd t (length t) ∷ []

abbrev pub cursor_address : Option (List ℕ) → ℕ
cursor_address none = 0
cursor_address (some c) = parse_ieee c

-- An empty text is none too.
abbrev pub not_empty : Option (List ℕ) → Option (List ℕ)
not_empty none = none
not_empty (some []) = none
not_empty (some (c ∷ s)) = some (c ∷ s)

module _ (p : Platform) where
  abbrev pub done_as : World p → p.hub.State × Bool → Fd → ℕ → String → World p × List Action
  done_as w (s, ok) fd id err = (record w { core = s }, reply_ok_or_err fd id ok (bytes err))

  abbrev pub result_of : World p → p.hub.State × DevCmdResult → Fd → ℕ → World p × List Action
  result_of w (s, r) fd id = (record w { core = s }, reply_ok_or_err fd id r.ok r.str)

  -- The checks of args.ieee that several commands begin with.
  unfoldable pub with_ieee :
      World p → Fd → ℕ → Option (List ℕ) → (ℕ → World p × List Action) → World p × List Action
  with_ieee w fd id none run = (w, send_err fd id (bytes "missing ieee"))
  with_ieee w fd id (some s) run =
      if parse_ieee s == 0 then (w, send_err fd id (bytes "bad ieee")) else run (parse_ieee s)

  unfoldable pub cmd_device_reinterview : Handler p
  cmd_device_reinterview w fd id doc =
      with_ieee w fd id (not_empty (as_text (arg doc "ieee")))
        λ ieee. done_as w (p.hub.interview_trigger w.core ieee) fd id "unknown or sleepy"

  unfoldable pub cmd_device_configure : Handler p
  cmd_device_configure w fd id doc =
      let unknown : World p × List Action =
        (w, send_err fd id (bytes "device unknown or never interviewed")) in
      with_ieee w fd id (as_text (arg doc "ieee")) λ ieee. elim (p.hub.find_by_ieee w.core ieee) [
        | none ↦ unknown
        | some d ↦
            let model = p.hub.zap.model_id d in
            if length model == 0
            then unknown
            else done_as w
                (p.hub.adapter_configure w.core (p.hub.zap.ieee_addr d) (p.hub.zap.nwk_addr d)
                  (take 63 model) (take 63 (p.hub.zap.manufacturer_name d)))
                fd id "no def or transport down"
      ]

  unfoldable pub cmd_device_list_page : World p → Fd → ℕ → ℕ → World p × List Action
  cmd_device_list_page w fd id after =
      if not (p.hub.allocates w.core page_cap)
      then (w, send_err fd id (bytes "oom"))
      else (w, answer fd (page_text p.hub.zap (p.hub.pool w.core) id after))

  unfoldable pub cmd_device_list : Handler p
  cmd_device_list w fd id doc =
      let cursor = as_text (arg doc "cursor") in
      let counted = p.hub.pool_count w.core in
      if wants_page fd cursor
      then cmd_device_list_page w fd id (cursor_address cursor)
      else if not (p.hub.allocates w.core (64 + (counted + 4) * row_cap))
      then (w, send_err fd id (bytes "oom"))
      else (w, answer fd (some (list_reply p.hub.zap counted (p.hub.pool w.core) id)))

  -- The checks in the source's order: the address, the name, and then what the address reads as.
  unfoldable pub cmd_device_rename : Handler p
  cmd_device_rename w fd id doc = elim (as_text (arg doc "ieee")) [
    | none ↦ (w, send_err fd id (bytes "missing ieee"))
    | some s ↦ elim (not_empty (as_text (arg doc "name"))) [
      | none ↦ (w, send_err fd id (bytes "missing name"))
      | some name ↦
          with_ieee w fd id (some s) λ ieee. result_of w (p.hub.cmd_rename w.core ieee name) fd id
    ]
  ]

  unfoldable pub cmd_device_delete : Handler p
  cmd_device_delete w fd id doc =
      with_ieee w fd id (as_text (arg doc "ieee"))
        λ ieee. result_of w (p.hub.cmd_remove w.core ieee (bool_or (arg doc "hard") false)) fd id

  unfoldable pub cmd_zigbee_permit_join : Handler p
  cmd_zigbee_permit_join w fd id doc = elim (natural (arg doc "duration")) [
    | none ↦ (w, send_err fd id (bytes "duration 0-254"))
    | some n ↦
        let (s, r) = p.hub.cmd_permit_join w.core n in
        if ltb 254 n
        then (w, send_err fd id (bytes "duration 0-254"))
        else done_as w (s, r.ok) fd id "permit_join failed"
  ]

  unfoldable pub cmd_zigbee_permit_join_status : Handler p
  cmd_zigbee_permit_join_status w fd id doc =
      let (is_open, remaining) = p.hub.permit_join_status w.core in
      (
        w,
        printed fd 128 (
            bytes "{\"id\":"
            ++ (decimal id
                ++ (bytes ",\"ok\":true,\"data\":{\"open\":"
                    ++ ((if is_open then bytes "true" else bytes "false")
                        ++ (bytes ",\"remaining_sec\":" ++ (remaining ++ bytes "}}")))))),
      )

  unfoldable pub cmd_device_attr_set : Handler p
  cmd_device_attr_set w fd id doc = elim (as_text (arg doc "ieee")) [
    | none ↦ (w, send_err fd id (bytes "missing ieee or key"))
    | some s ↦ elim (as_text (arg doc "key")) [
      | none ↦ (w, send_err fd id (bytes "missing ieee or key"))
      | some key ↦ with_ieee w fd id (some s) λ ieee.
          elim (p.hub.value_from_json (arg doc "value")) [
            | none ↦ (w, send_err fd id p.hub.bad_value.str)
            | some val ↦ result_of w (p.hub.cmd_set_attr w.core ieee 0 key val) fd id
          ]
    ]
  ]

  unfoldable pub cmd_device_options_set : Handler p
  cmd_device_options_set w fd id doc =
      let args = serialize_to p.lib (member doc "args") 192 in
      with_ieee w fd id (as_text (arg doc "ieee")) λ ieee.
        let (o, ok) = device_options_set p.shadow p.options p.lib w.options ieee args in
        if length args == 0 || not (ltb (length args) 192)
        then (w, reply_ok_or_err fd id false (bytes "options apply failed"))
        else (record w { options = o }, reply_ok_or_err fd id ok (bytes "options apply failed"))

  -- What follows the three arguments of device.bind.
  unfoldable pub bind_device : World p → Fd → ℕ → Bool → ℕ → ℕ → ℕ → World p × List Action
  bind_device w fd id unbind src_ep cl ieee =
      let coord = p.hub.coordinator_ieee w.core in
      if coord == 0
      then (w, send_err fd id (bytes "coordinator ieee unknown"))
      else elim (p.hub.find_by_ieee w.core ieee) [
        | none ↦ (w, send_err fd id (bytes "device not found"))
        | some d ↦
            let nwk = p.hub.zap.nwk_addr d in
            let ep = src_ep % 2 ^ 8 in
            let cluster = cl % 2 ^ 16 in
            if unbind
            then done_as w (p.hub.zdo_unbind w.core nwk ieee ep cluster coord) fd id "unbind failed"
            else done_as w (p.hub.zdo_bind w.core nwk ieee ep cluster coord) fd id "bind failed"
      ]

  unfoldable pub cmd_device_bind : Handler p
  cmd_device_bind w fd id doc =
      let missing : World p × List Action =
        (w, send_err fd id (bytes "missing ieee / src_ep / cluster")) in
      elim (as_text (arg doc "ieee")) [
        | none ↦ missing
        | some s ↦ elim (natural (arg doc "src_ep")) [
          | none ↦ missing
          | some src_ep ↦ elim (natural (arg doc "cluster")) [
            | none ↦ missing
            | some cl ↦
                with_ieee w fd id (some s)
                  (bind_device w fd id (bool_or (arg doc "unbind") false) src_ep cl)
          ]
        ]
      ]
