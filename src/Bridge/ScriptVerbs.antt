-- ===== src/Bridge/ScriptVerbs.antt =====
-- main/ws_bridge.cpp: script.*, ping and alerts.get.
use zhac_mono_core.Prelude.{
  ℕ, none, some, List, [], ◌∷◌, ◌++◌, ◌&&◌, not, if◌then◌else◌, take, default,
}
use zhac_mono_core.Prelude.Text.{bytes, decimal}
use zhac_mono_core.Document.{boolean, number, text, array, nil, item, Items, as_text, object_of}
use zhac_mono_core.Bridge.World.{Platform, World, Handler, arg}
use zhac_mono_core.Bridge.Reply.{printed, sent, send_err, reply_ok_or_err, with_data}
use zhac_mono_core.Bridge.Push.{c_string, ws_push}

unfoldable pub script_items : List (List ℕ × ℕ) → Items
script_items [] = nil
script_items ((name, size) ∷ es) =
    item (object_of ((bytes "name", text name) ∷ (bytes "size", number size) ∷ []))
      (script_items es)

module _ (p : Platform) where
  unfoldable pub cmd_ping : Handler p
  cmd_ping w fd id doc = (
    w,
    printed fd 96 (
        bytes "{\"id\":"
        ++ (decimal id
            ++ (bytes ",\"ok\":true,\"pong\":true,\"uptime_s\":"
                ++ (decimal (p.hub.uptime_s w.core) ++ bytes "}")))),
  )

  unfoldable pub cmd_alerts_get : Handler p
  cmd_alerts_get w fd id doc =
      (w, printed fd 64 (bytes "{\"id\":" ++ (decimal id ++ bytes ",\"ok\":true,\"data\":[]}")))

  unfoldable pub cmd_script_list : Handler p
  cmd_script_list w fd id doc =
      (w, sent p.lib fd 1024 (with_data id (array (script_items (p.hub.script_list w.core)))))

  unfoldable pub cmd_script_read : Handler p
  cmd_script_read w fd id doc = elim (as_text (arg doc "name")) [
    | none ↦ (w, send_err fd id (bytes "missing name"))
    | some name ↦
        if not (p.hub.allocates w.core 16384 && p.hub.allocates w.core 20480)
        then (w, send_err fd id (bytes "oom"))
        else elim (p.hub.script_read w.core name) [
          | none ↦ (w, send_err fd id (bytes "not found"))
          | some src ↦ (
            w,
            sent p.lib fd 20480
                (with_data id (object_of ((bytes "src", text (c_string (take 16383 src))) ∷ []))),
          )
        ]
  ]

  unfoldable pub cmd_script_delete : Handler p
  cmd_script_delete w fd id doc = elim (as_text (arg doc "name")) [
    | none ↦ (w, send_err fd id (bytes "missing name"))
    | some name ↦
        let (s, ok) = p.hub.script_delete w.core name in
        let w' : World p = record w { core = s } in
        (
          w',
          reply_ok_or_err fd id ok (bytes "not found")
              ++ (if ok
                  then ws_push p w' (bytes "script.deleted")
                      (object_of ((bytes "name", text name) ∷ []))
                  else []),
        )
  ]

  unfoldable pub cmd_script_run : Handler p
  cmd_script_run w fd id doc = elim (as_text (arg doc "name")) [
    | none ↦ (w, send_err fd id (bytes "missing name"))
    | some name ↦
        let (s, ok) = p.hub.run_script w.core name in
        (record w { core = s }, reply_ok_or_err fd id ok (bytes "queue saturated or missing"))
  ]

  unfoldable pub cmd_script_check : Handler p
  cmd_script_check w fd id doc = elim (as_text (arg doc "src")) [
    | none ↦ (w, send_err fd id (bytes "missing src"))
    | some src ↦
        let r = p.hub.check_syntax w.core (default (as_text (arg doc "name")) []) src in
        (
          w,
          sent p.lib fd 256 (
              with_data id (
                object_of (
                  (bytes "ok", boolean r.ok)
                  ∷ (bytes "err", text r.err)
                  ∷ (bytes "line", number r.line)
                  ∷ []))),
        )
  ]
