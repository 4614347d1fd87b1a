-- ===== src/Bridge/GroupVerbs.antt =====
-- main/ws_bridge.cpp: group.*, over the functions of main/api_groups.cpp.
use zhac_mono_core.Prelude.{ℕ, not, none, some, List, [], ◌∷◌, ◌++◌, if◌then◌else◌, take, default}
use zhac_mono_core.Prelude.Text.{bytes}
use zhac_mono_core.Document.{
  Json, JsonLib, pos, null, number, integer, as_int, member, object_of, serialize_to,
}
use zhac_mono_core.Groups.Api.{
  Commands, group_list_json, group_create, group_get, group_update, group_delete_req, group_cmd,
}
use zhac_mono_core.Bridge.World.{Fd, Action, Hub, Platform, World, Handler, arg}
use zhac_mono_core.Bridge.Reply.{sent, send_err, reply_ok_or_err, with_data}
use zhac_mono_core.Bridge.Push.{ws_push}

-- device_cmd, as the groups use it.
abbrev pub commands : Hub → Commands
commands hub = record {
  State = hub.State;
  Value = hub.Value;
  value_from_json = hub.value_from_json;
  device_cmd_int = hub.value_int;
  set_attr =
      λ s ieee ep key val. let done = hub.cmd_set_attr s ieee ep key val in (done.0, done.1.ok);
}

-- A document read into `inner`, which stays null where it is no JSON.
unfoldable pub inner_of : JsonLib → List ℕ → Json
inner_of lib rsp = elim (lib.deserialize rsp) [ none ↦ null | some doc ↦ doc ]

module _ (p : Platform) where
  -- args, cut off at the end of a buffer of `cap` bytes.
  abbrev pub args_text : Json → ℕ → List ℕ
  args_text doc cap = serialize_to p.lib (member doc "args") cap

  unfoldable pub cmd_group_list : Handler p
  cmd_group_list w fd id doc =
      let (n, text) = group_list_json p.groups p.lib w.groups 4096 in
      if not (p.hub.allocates w.core 4096)
      then (w, send_err fd id (bytes "oom"))
      else (w, sent p.lib fd 4096 (with_data id (inner_of p.lib (take n text))))

  -- The reply and the push of a change that answered `rsp`.
  unfoldable pub changed : World p → Fd → ℕ → List ℕ → List ℕ → List Action
  changed w fd id event rsp =
      let inner = inner_of p.lib rsp in
      sent p.lib fd 640 (with_data id inner) ++ ws_push p w event inner

  unfoldable pub cmd_group_create : Handler p
  unfolding changed
  cmd_group_create w fd id doc =
      let (s, answer) = group_create p.groups p.lib w.groups (args_text doc 1024) 512 in
      let w' : World p = record w { groups = s } in
      elim answer [
        | none ↦ (w', send_err fd id (bytes "create failed"))
        | some rsp ↦ (w', changed w' fd id (bytes "group.added") rsp)
      ]

  unfoldable pub cmd_group_get : Handler p
  cmd_group_get w fd id doc = elim (group_get p.groups p.lib w.groups (args_text doc 256) 512) [
    | none ↦ (w, send_err fd id (bytes "no such group"))
    | some rsp ↦ (w, sent p.lib fd 640 (with_data id (inner_of p.lib rsp)))
  ]

  unfoldable pub cmd_group_update : Handler p
  unfolding changed
  cmd_group_update w fd id doc =
      let (s, answer) = group_update p.groups p.lib w.groups (args_text doc 1024) 512 in
      let w' : World p = record w { groups = s } in
      elim answer [
        | none ↦ (w', send_err fd id (bytes "no such group"))
        | some rsp ↦ (w', changed w' fd id (bytes "group.updated") rsp)
      ]

  unfoldable pub cmd_group_delete : Handler p
  cmd_group_delete w fd id doc =
      let (s, ok) = group_delete_req p.groups p.lib w.groups (args_text doc 256) in
      let w' : World p = record w { groups = s } in
      let gone = integer (default (as_int (arg doc "id")) (pos 0)) in
      (
        w',
        reply_ok_or_err fd id ok (bytes "delete failed")
            ++ (if ok
                then ws_push p w' (bytes "group.deleted") (object_of ((bytes "id", gone) ∷ []))
                else []),
      )

  -- `rsp` has 128 bytes.
  unfoldable pub cmd_group_cmd : Handler p
  cmd_group_cmd w fd id doc =
      let (s, rsp) =
        group_cmd p.groups p.lib (commands p.hub) w.groups w.core (args_text doc 512) in
      let inner = inner_of p.lib rsp in
      (
        record w { core = s },
        sent p.lib fd 192 (
            object_of (
              (bytes "id", number id)
              ∷ (bytes "ok", member inner "ok")
              ∷ (bytes "sent", member inner "sent")
              ∷ (bytes "failed", member inner "failed")
              ∷ [])),
      )
