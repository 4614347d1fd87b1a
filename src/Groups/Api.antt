-- ===== src/Groups/Api.antt =====
-- main/api_groups.cpp: what the REST routes and the WebSocket verbs for groups share.
-- `Commands` stands for device_cmd, which writes an attribute of one device.
pub mod Listing
pub mod Members
pub mod Kept
pub mod Rest
use zhac_mono_core.Prelude.{
  ℕ, zero, suc, ◌+◌, ◌-◌, ◌^◌, Bool, true, false, ◌&&◌, ◌||◌, not, Option, none, some, List, [],
  ◌∷◌, ◌++◌, ltb, ◌==◌, if◌then◌else◌, default, length, take, drop, replicate, set, get_or,
}
use zhac_mono_core.Prelude.Text.{bytes, decimal}
use zhac_mono_core.Prelude.Hex.{strtoull16}
use zhac_mono_core.Document.{
  ℤ, pos, Json, member, as_text, as_int, uint_or, wrap, is_null, as_array, JsonLib,
}
use zhac_mono_core.Groups.Storage.{Nvs, GrpMember, GrpRecord, grp_max_members, grp_max_groups}
use zhac_mono_core.Groups.{
  grp_load_all, grp_create, grp_find, grp_save, grp_delete, grp_to_json, no_member,
}

-- An optional 0x, then strtoull; none is a null pointer.
unfoldable pub parse_ieee : List ℕ → ℕ
parse_ieee (z ∷ x ∷ s) =
    let plain = strtoull16 (z ∷ x ∷ s) in
    let rest = strtoull16 s in if z == b'0' && (x == b'x' || x == b'X') then rest else plain
parse_ieee s = strtoull16 s

-- One element of the "members" array, appended where it has an "ieee" text.
unfoldable pub put_member : GrpRecord → Json → GrpRecord
put_member r obj = elim (as_text (member obj "ieee")) [
  | none ↦ r
  | some ieee ↦
      let ep = wrap 8 (default (as_int (member obj "ep")) (pos 1)) in
      record r {
        members = set r.members r.member_count (record { ieee = parse_ieee ieee; ep = ep });
        member_count = r.member_count + 1;
      }
]

unfoldable pub put_members : GrpRecord → List Json → GrpRecord
put_members r [] = r
put_members r (obj ∷ objs) =
    let rest = put_members (put_member r obj) objs in
    if ltb r.member_count grp_max_members then rest else r

-- strncpy(name, s, 31) into the array of 32 bytes.
unfoldable pub put_name : List ℕ → List ℕ → List ℕ
put_name name s = take 31 (s ++ replicate 31 0) ++ drop 31 name

abbrev pub empty_group : GrpRecord
empty_group = record {
  id = 0;
  name = replicate 32 0;
  member_count = 0;
  members = replicate 16 no_member;
}

-- The new record with the name that the document carries.
unfoldable pub named_group : Json → GrpRecord
named_group doc = record empty_group {
  name = put_name (replicate 32 0) (default (as_text (member doc "name")) []);
}

-- The text that grp_to_json leaves in a buffer of `cap` bytes, [] where it returns 0.
unfoldable pub row_of : GrpRecord → ℕ → List ℕ
row_of r cap = let out = grp_to_json r (replicate cap 0) cap in take out.0 out.1

-- The loop of group_list_json: `i` is the index of the next group, `out` what was written.
unfoldable pub list_from : ℕ → ℕ → List GrpRecord → List ℕ → List ℕ
list_from cap i [] out = out
list_from cap i (r ∷ rs) out =
    let opened = if i == 0 then out else out ++ bytes "," in
    let row = row_of r 256 in
    let put = if ltb (length opened + length row) cap then opened ++ row else opened in
    let rest = list_from cap (i + 1) rs put in if ltb (length out) cap then rest else out

-- The position returned, and what was written; `cap` is above 11.
unfoldable pub list_text : List GrpRecord → ℕ → ℕ × List ℕ
list_text rs cap =
    let out = list_from cap 0 rs (bytes "{\"groups\":[") in
    (length out + 2, out ++ take (cap - length out - 1) (bytes "]}"))

pub record Commands : Type 1 where
  pub State : Type 0
  pub Value : Type 0
  pub value_from_json : Json → Option Value
  pub device_cmd_int : ℕ → Value
  -- device_cmd_set_attr, and whether it returned DEVCMD_OK
  pub set_attr : State → ℕ → ℕ → List ℕ → Value → State × Bool

unfoldable pub cmd_text : GrpRecord → ℕ × ℕ → List ℕ
cmd_text r (sent, failed) =
    bytes "{\"ok\":"
    ++ (if sent == r.member_count then bytes "true" else bytes "false")
    ++ bytes ",\"sent\":"
    ++ decimal sent
    ++ bytes ",\"failed\":"
    ++ decimal failed
    ++ bytes "}"

module _ (cmds : Commands) where
  -- The loop over the members: the state, and how many were sent and failed.
  unfoldable pub send_from :
      List GrpMember → ℕ → ℕ → List ℕ → cmds.Value → cmds.State → ℕ → ℕ → cmds.State × ℕ × ℕ
  send_from ms zero i key val s sent failed = (s, sent, failed)
  send_from ms (suc rounds) i key val s sent failed =
      let m = get_or ms i no_member in
      let done = cmds.set_attr s m.ieee m.ep key val in
      send_from ms rounds (i + 1) key val done.0 (if done.1 then sent + 1 else sent)
        (if done.1 then failed else failed + 1)

module _ (lib : JsonLib) where
  unfoldable pub parse_members : List ℕ → GrpRecord → GrpRecord
  parse_members body r = elim (lib.deserialize body) [
    | none ↦ record r { member_count = 0 }
    | some doc ↦ put_members (record r { member_count = 0 }) (as_array (member doc "members"))
  ]

  unfoldable pub parse_body : List ℕ → Option Json
  parse_body body = if length body == 0 then none else lib.deserialize body

  -- The record with the fields that the document carries.
  unfoldable pub edited : List ℕ → Json → GrpRecord → GrpRecord
  edited body doc r =
      let named =
        if is_null (member doc "name")
        then r
        else record r { name = put_name r.name (default (as_text (member doc "name")) []) } in
      if is_null (member doc "members") then named else parse_members body named

module _ (nvs : Nvs) (lib : JsonLib) where
  unfoldable pub group_list_json : nvs.State → ℕ → ℕ × List ℕ
  group_list_json s cap = list_text (grp_load_all nvs s grp_max_groups) cap

  -- The reply's text; none is `return false`.
  unfoldable pub group_create : nvs.State → List ℕ → ℕ → nvs.State × Option (List ℕ)
  group_create s body cap = elim (parse_body lib body) [
    | none ↦ (s, none)
    | some doc ↦
        let made = grp_create nvs s (parse_members lib body (named_group doc)) in
        (made.0, if made.1 then some (row_of made.2 cap) else none)
  ]

  unfoldable pub group_get : nvs.State → List ℕ → ℕ → Option (List ℕ)
  group_get s body cap = elim (parse_body lib body) [
    | none ↦ none
    | some doc ↦ elim (grp_find nvs s (uint_or 16 (member doc "id") 0)) [
      | none ↦ none
      | some r ↦ some (row_of r cap)
    ]
  ]

  unfoldable pub group_update : nvs.State → List ℕ → ℕ → nvs.State × Option (List ℕ)
  group_update s body cap = elim (parse_body lib body) [
    | none ↦ (s, none)
    | some doc ↦ elim (grp_find nvs s (uint_or 16 (member doc "id") 0)) [
      | none ↦ (s, none)
      | some r ↦
          let saved = grp_save nvs s (edited lib body doc r) in
          (saved.0, if saved.1 then some (row_of (edited lib body doc r) cap) else none)
    ]
  ]

  unfoldable pub group_delete_req : nvs.State → List ℕ → nvs.State × Bool
  group_delete_req s body = elim (parse_body lib body) [
    | none ↦ (s, false)
    | some doc ↦ grp_delete nvs s (uint_or 16 (member doc "id") 0)
  ]

  module _ (cmds : Commands) where
    -- `key` has 24 bytes.
    unfoldable pub group_cmd : nvs.State → cmds.State → List ℕ → cmds.State × List ℕ
    group_cmd s c body = elim (parse_body lib body) [
      | none ↦ (c, bytes "{\"ok\":false,\"err\":\"bad json\"}")
      | some doc ↦ elim (grp_find nvs s (uint_or 16 (member doc "id") 0)) [
        | none ↦ (c, bytes "{\"ok\":false,\"err\":\"not found\"}")
        | some r ↦
            let key = take 23 (default (as_text (member doc "key")) (bytes "state")) in
            let val = default (cmds.value_from_json (member doc "val")) (cmds.device_cmd_int 0) in
            let done = send_from cmds r.members r.member_count 0 key val c 0 0 in
            if r.member_count == 0
            then (c, bytes "{\"ok\":false,\"err\":\"not found\"}")
            else (done.0, cmd_text r (done.1, done.2))
      ]
    ]
