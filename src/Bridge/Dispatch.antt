-- ===== src/Bridge/Dispatch.antt =====
-- main/ws_bridge.cpp: which command runs, and who may run it.
-- `others` is any account of the commands of the status, the diagnostics, the clock, the settings, the token, Wi-Fi and the
-- log, of device.get, and of the commands of the radio's settings, the resets and the relay's client.
pub mod Gate
pub mod Replies
use zhac_mono_core.Prelude.{
  ℕ, zero, suc, Bool, true, false, ◌&&◌, not, Option, none, some, List, [], ◌∷◌, ◌++◌,
  if◌then◌else◌, default,
}
use zhac_mono_core.Prelude.Text.{bytes}
use zhac_mono_core.Document.{Json, same, member, as_text, uint_or}
use zhac_mono_core.Auth.Lockout.{Turn}
use zhac_mono_core.Auth.Token.{auth_check_token}
use zhac_mono_core.Bridge.World.{Fd, local, relay, Action, Platform, World, Handler, arg}
use zhac_mono_core.Bridge.Reply.{send_err, reply_ok_or_err}
use zhac_mono_core.Bridge.Devices.{
  cmd_device_reinterview, cmd_device_configure, cmd_device_list, cmd_device_rename,
  cmd_device_delete, cmd_zigbee_permit_join, cmd_zigbee_permit_join_status, cmd_device_attr_set,
  cmd_device_options_set, cmd_device_bind,
}
use zhac_mono_core.Bridge.GroupVerbs.{
  cmd_group_list, cmd_group_create, cmd_group_get, cmd_group_update, cmd_group_delete,
  cmd_group_cmd,
}
use zhac_mono_core.Bridge.RuleVerbs.{
  cmd_rule_list, cmd_rule_create, cmd_rule_update, cmd_rule_enable, cmd_rule_delete,
}
use zhac_mono_core.Bridge.ScriptVerbs.{
  cmd_ping, cmd_alerts_get, cmd_script_list, cmd_script_read, cmd_script_delete, cmd_script_run,
  cmd_script_check,
}
use zhac_mono_core.Bridge.Verbs.{
  Verb, ping, alerts_get, device_list, device_rename, device_delete, device_attr_set, device_bind,
  device_options, group_list, group_create, group_get, group_update, group_delete, group_cmd,
  device_reinterview, device_configure, rule_list, rule_create, rule_update, rule_enable,
  rule_delete, script_list, script_read, script_delete, script_run, script_check, permit_join,
  permit_join_status, verb_of,
}

-- What a socket sends, and the turns that the lockout's clock and lock take while it is dispatched.
pub record Frame : Type 0 where
  pub fd : Fd
  pub text : List ℕ
  pub first : Turn
  pub second : Turn

module _ (p : Platform) (remote : Bool) (others : Verb → Handler p) where
  unfoldable pub handler : Verb → Handler p
  handler ping = cmd_ping p
  handler device_list = cmd_device_list p
  handler device_rename = cmd_device_rename p
  handler device_delete = cmd_device_delete p
  handler device_attr_set = cmd_device_attr_set p
  handler device_bind = cmd_device_bind p
  handler device_options = cmd_device_options_set p
  handler alerts_get = cmd_alerts_get p
  handler group_list = cmd_group_list p
  handler group_create = cmd_group_create p
  handler group_get = cmd_group_get p
  handler group_update = cmd_group_update p
  handler group_delete = cmd_group_delete p
  handler group_cmd = cmd_group_cmd p
  handler device_reinterview = cmd_device_reinterview p
  handler device_configure = cmd_device_configure p
  handler rule_list = cmd_rule_list p
  handler rule_create = cmd_rule_create p
  handler rule_update = cmd_rule_update p
  handler rule_enable = cmd_rule_enable p
  handler rule_delete = cmd_rule_delete p
  handler script_list = cmd_script_list p
  handler script_read = cmd_script_read p
  handler script_delete = cmd_script_delete p
  handler script_run = cmd_script_run p
  handler script_check = cmd_script_check p
  handler permit_join = cmd_zigbee_permit_join p
  handler permit_join_status = cmd_zigbee_permit_join_status p
  handler v = others v

  -- A browser's socket that has not shown the token, while authentication is on.
  unfoldable pub gated : World p → Fd → Bool
  gated w relay = false
  gated w (local n) = w.auth.s_enabled && not (p.ws.fd_is_authed w.clients n)

  abbrev pub authed : World p → Fd → p.ws.State
  authed w relay = w.clients
  authed w (local n) = p.ws.fd_set_authed w.clients n

  -- What a gated socket can do.
  unfoldable pub admit : World p → Fd → ℕ → List ℕ → Json → Turn → Turn → World p × List Action
  admit w fd id cmd doc first second =
      let key = default (as_text (arg doc "token")) [] in
      let checked = auth_check_token w.auth (some key) first second in
      if not (same cmd (bytes "auth"))
      then (w, send_err fd id (bytes "auth required"))
      else if checked.1
      then (record w { auth = checked.0; clients = authed w fd }, reply_ok_or_err fd id true [])
      else (record w { auth = checked.0 }, send_err fd id (bytes "auth failed"))

  unfoldable pub run_verb : World p → Fd → ℕ → List ℕ → Json → World p × List Action
  run_verb w fd id cmd doc = elim (verb_of remote cmd) [
    | none ↦ (w, send_err fd id (bytes "unknown cmd"))
    | some v ↦ handler v w fd id doc
  ]

  unfoldable pub dispatch_envelope : World p → Fd → Json → Turn → Turn → World p × List Action
  dispatch_envelope w fd doc first second =
      let id = uint_or 32 (member doc "id") 0 in
      elim (as_text (member doc "cmd")) [
        | none ↦ (w, send_err fd id (bytes "missing cmd"))
        | some cmd ↦
            if gated w fd
            then admit w fd id cmd doc first second
            else if same cmd (bytes "auth")
            then (w, reply_ok_or_err fd id true [])
            else run_verb w fd id cmd doc
      ]

  unfoldable pub ws_rx : World p → Frame → World p × List Action
  ws_rx w f = elim (p.lib.deserialize f.text) [
    | none ↦ (w, send_err f.fd 0 (bytes "bad json"))
    | some doc ↦ dispatch_envelope w f.fd doc f.first f.second
  ]

  -- The frames in the order in which the server's task hands them over.
  unfoldable pub receive : World p → List Frame → World p × List Action
  receive w [] = (w, [])
  receive w (f ∷ fs) =
      let one = ws_rx w f in let rest = receive one.0 fs in (rest.0, one.1 ++ rest.1)
