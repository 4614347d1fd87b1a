-- ===== src/Bridge/World.antt =====
-- main/ws_bridge.cpp: the components that the commands reach, and what the bridge does to the outside.
-- `Ws` stands for ws_server's clients, `Hub` for the Zigbee pool, device_cmd, the rules, the scripts and the heap.
use zhac_mono_core.Prelude.{ℕ, ◌≡◌, ◌≢◌, Bool, true, Option, List, String}
use zhac_mono_core.Document.{Json, JsonLib, member}
use zhac_mono_core.Auth.State.{Auth}
use zhac_mono_core.Devlist.Page.{Zap}
use zhac_mono_core.Groups.Storage.{Nvs}
use zhac_mono_core.Options.{Shadow, Options}
use zhac_mono_core.Options as DeviceOptions

-- A socket of ws_server, or the remote relay, whose number REMOTE_VIRTUAL_FD is negative.
pub data Fd : Type 0 where
  local : ℕ → Fd
  relay : Fd

-- `reply` has what the buffer holds before its NUL, and the length that is passed with it.
pub data Action : Type 0 where
  reply : Fd → List ℕ → ℕ → Action
  broadcast : List ℕ → Action
  relay_event : List ℕ → List ℕ → Action

pub record Ws : Type 1 where
  pub State : Type 0
  pub fd_is_authed : State → ℕ → Bool
  pub fd_set_authed : State → ℕ → State
  pub client_count : State → ℕ

-- The mark of one socket is not that of another.
pub record IsWs (ws : Ws) : Type 0 where
  pub authed_self : (s : ws.State) (n : ℕ) → ws.fd_is_authed (ws.fd_set_authed s n) n ≡ true
  pub authed_other :
      (s : ws.State) (n m : ℕ)
      → n ≢ m
      → ws.fd_is_authed (ws.fd_set_authed s n) m ≡ ws.fd_is_authed s m

-- Whether it is DEVCMD_OK, and device_cmd_result_str of it.
pub record DevCmdResult : Type 0 where
  pub ok : Bool
  pub str : List ℕ

-- `src` has the slot's src_len bytes.
pub record RuleSlot : Type 0 where
  pub rule_id : ℕ
  pub enabled : Bool
  pub trigger_type : ℕ
  pub rule_type : ℕ
  pub name : List ℕ
  pub src : List ℕ

-- What lua_engine_check_syntax reports.
pub record Syntax : Type 0 where
  pub ok : Bool
  pub err : List ℕ
  pub line : ℕ

-- A call that can change the component returns its new state. `allocates` tells whether the heap has a block of the
-- size; `script_read` is none below 0.
pub record Hub : Type 1 where
  pub State : Type 0
  pub zap : Zap
  pub Value : Type 0
  pub uptime_s : State → ℕ
  pub allocates : State → ℕ → Bool
  pub relay_running : State → Bool
  pub envelope_build : ℕ → List ℕ → List ℕ → List ℕ
  pub pool : State → List zap.Device
  pub pool_count : State → ℕ
  pub find_by_ieee : State → ℕ → Option zap.Device
  pub interview_trigger : State → ℕ → State × Bool
  pub adapter_configure : State → ℕ → ℕ → List ℕ → List ℕ → State × Bool
  pub coordinator_ieee : State → ℕ
  pub zdo_bind : State → ℕ → ℕ → ℕ → ℕ → ℕ → State × Bool
  pub zdo_unbind : State → ℕ → ℕ → ℕ → ℕ → ℕ → State × Bool
  pub cmd_rename : State → ℕ → List ℕ → State × DevCmdResult
  pub cmd_remove : State → ℕ → Bool → State × DevCmdResult
  pub cmd_permit_join : State → ℕ → State × DevCmdResult
  pub permit_join_status : State → Bool × List ℕ
  pub value_from_json : Json → Option Value
  pub value_int : ℕ → Value
  pub bad_value : DevCmdResult
  pub cmd_set_attr : State → ℕ → ℕ → List ℕ → Value → State × DevCmdResult
  pub rules_size : ℕ
  pub rules_load_all : State → List RuleSlot
  pub rules_load : State → ℕ → Option RuleSlot
  pub rules_add : State → List ℕ → List ℕ → State × Bool
  pub rules_update : State → ℕ → List ℕ → List ℕ → State × Bool
  pub rules_enable : State → ℕ → Bool → State × Bool
  pub rules_delete : State → ℕ → State × Bool
  pub dsl_last_error : State → List ℕ
  pub script_list : State → List (List ℕ × ℕ)
  pub script_read : State → List ℕ → Option (List ℕ)
  pub script_delete : State → List ℕ → State × Bool
  pub run_script : State → List ℕ → State × Bool
  pub check_syntax : State → List ℕ → List ℕ → Syntax

pub record Platform : Type 1 where
  pub Flash : Type 0
  pub ws : Ws
  pub hub : Hub
  pub groups : Nvs
  pub shadow : Shadow
  pub options : DeviceOptions.Nvs
  pub lib : JsonLib

-- The state of the components that the bridge reaches.
pub record World (p : Platform) : Type 0 where
  pub auth : Auth p.Flash
  pub clients : p.ws.State
  pub core : p.hub.State
  pub groups : p.groups.State
  pub options : Options p.shadow p.options p.lib

-- One command: the socket, the envelope's id, and the document.
abbrev pub Handler : Platform → Type 0
Handler p = World p → Fd → ℕ → Json → World p × List Action

-- doc["args"][key]
abbrev pub arg : Json → String → Json
arg doc key = member (member doc "args") key
