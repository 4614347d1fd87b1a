-- ===== src/Bridge/Verbs.antt =====
-- main/ws_bridge.cpp, dispatch_envelope: the names of the commands, compared in the source's order.
use zhac_mono_core.Prelude.{
  ℕ, Bool, true, Option, none, some, List, [], ◌∷◌, ◌++◌, ◌≡◌, refl, if◌then◌else◌, String,
}
use zhac_mono_core.Prelude.Text.{bytes}
use zhac_mono_core.Document.{same}

pub data Verb : Type 0 where
  ping status status_get diag_tasks time_set device_list device_get device_rename device_delete
        device_attr_set device_bind device_options settings_set token_rotate unhandled unhandled_get
        alerts_get group_list group_create group_get group_update group_delete group_cmd wifi_status
        wifi_scan wifi_connect wifi_disconnect logs_get device_reinterview device_configure
        rule_list rule_create rule_update rule_enable rule_delete script_list script_read
        script_delete script_run script_check permit_join permit_join_status zigbee_settings
        zigbee_reset storage_reset remote_status remote_connect remote_disconnect :
      Verb

unfoldable pub name : Verb → String
name ping = "ping"
name status = "status"
name status_get = "status.get"
name diag_tasks = "diag.tasks"
name time_set = "time.set"
name device_list = "device.list"
name device_get = "device.get"
name device_rename = "device.rename"
name device_delete = "device.delete"
name device_attr_set = "device.attr.set"
name device_bind = "device.bind"
name device_options = "device.options.set"
name settings_set = "settings.set"
name token_rotate = "token.rotate"
name unhandled = "diagnostics.unhandled"
name unhandled_get = "diagnostics.unhandled.get"
name alerts_get = "alerts.get"
name group_list = "group.list"
name group_create = "group.create"
name group_get = "group.get"
name group_update = "group.update"
name group_delete = "group.delete"
name group_cmd = "group.cmd"
name wifi_status = "wifi.status"
name wifi_scan = "wifi.scan"
name wifi_connect = "wifi.connect"
name wifi_disconnect = "wifi.disconnect"
name logs_get = "logs.get"
name device_reinterview = "device.reinterview"
name device_configure = "device.configure"
name rule_list = "rule.list"
name rule_create = "rule.create"
name rule_update = "rule.update"
name rule_enable = "rule.enable"
name rule_delete = "rule.delete"
name script_list = "script.list"
name script_read = "script.read"
name script_delete = "script.delete"
name script_run = "script.run"
name script_check = "script.check"
name permit_join = "zigbee.permit_join"
name permit_join_status = "zigbee.permit_join.status"
name zigbee_settings = "zigbee.settings.set"
name zigbee_reset = "zigbee.reset"
name storage_reset = "system.storage_reset"
name remote_status = "remote.status"
name remote_connect = "remote.connect"
name remote_disconnect = "remote.disconnect"

-- The commands of every build.
abbrev pub verbs : List Verb
verbs =
    ping ∷ status ∷ status_get ∷ diag_tasks ∷ time_set ∷ device_list ∷ device_get ∷ device_rename
    ∷ device_delete ∷ device_attr_set ∷ device_bind ∷ device_options ∷ settings_set ∷ token_rotate
    ∷ unhandled ∷ unhandled_get ∷ alerts_get ∷ group_list ∷ group_create ∷ group_get ∷ group_update
    ∷ group_delete ∷ group_cmd ∷ wifi_status ∷ wifi_scan ∷ wifi_connect ∷ wifi_disconnect ∷ logs_get
    ∷ device_reinterview ∷ device_configure ∷ rule_list ∷ rule_create ∷ rule_update ∷ rule_enable
    ∷ rule_delete ∷ script_list ∷ script_read ∷ script_delete ∷ script_run ∷ script_check
    ∷ permit_join ∷ permit_join_status ∷ zigbee_settings ∷ zigbee_reset ∷ storage_reset ∷ []

-- The commands of a build with CONFIG_ZHAC_REMOTE_CLIENT_ENABLE besides.
abbrev pub remote_verbs : List Verb
remote_verbs = remote_status ∷ remote_connect ∷ remote_disconnect ∷ []

-- The first whose name is the text.
unfoldable pub first_named : List Verb → List ℕ → Option Verb
unfolding same name
first_named [] cmd = none
first_named (v ∷ vs) cmd =
    let rest = first_named vs cmd in if same cmd (bytes (name v)) then some v else rest

unfoldable pub verb_of : Bool → List ℕ → Option Verb
unfolding first_named
verb_of remote cmd = first_named (verbs ++ (if remote then remote_verbs else [])) cmd

-- In a build with the remote client each command's own name leads to it: no name hides another.
pub verb_of-name : (v : Verb) → verb_of true (bytes (name v)) ≡ some v
unfolding verb_of
verb_of-name ping = refl
verb_of-name status = refl
verb_of-name status_get = refl
verb_of-name diag_tasks = refl
verb_of-name time_set = refl
verb_of-name device_list = refl
verb_of-name device_get = refl
verb_of-name device_rename = refl
verb_of-name device_delete = refl
verb_of-name device_attr_set = refl
verb_of-name device_bind = refl
verb_of-name device_options = refl
verb_of-name settings_set = refl
verb_of-name token_rotate = refl
verb_of-name unhandled = refl
verb_of-name unhandled_get = refl
verb_of-name alerts_get = refl
verb_of-name group_list = refl
verb_of-name group_create = refl
verb_of-name group_get = refl
verb_of-name group_update = refl
verb_of-name group_delete = refl
verb_of-name group_cmd = refl
verb_of-name wifi_status = refl
verb_of-name wifi_scan = refl
verb_of-name wifi_connect = refl
verb_of-name wifi_disconnect = refl
verb_of-name logs_get = refl
verb_of-name device_reinterview = refl
verb_of-name device_configure = refl
verb_of-name rule_list = refl
verb_of-name rule_create = refl
verb_of-name rule_update = refl
verb_of-name rule_enable = refl
verb_of-name rule_delete = refl
verb_of-name script_list = refl
verb_of-name script_read = refl
verb_of-name script_delete = refl
verb_of-name script_run = refl
verb_of-name script_check = refl
verb_of-name permit_join = refl
verb_of-name permit_join_status = refl
verb_of-name zigbee_settings = refl
verb_of-name zigbee_reset = refl
verb_of-name storage_reset = refl
verb_of-name remote_status = refl
verb_of-name remote_connect = refl
verb_of-name remote_disconnect = refl
