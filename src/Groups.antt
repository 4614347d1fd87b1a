-- ===== src/Groups.antt =====
-- main/groups_store.cpp and groups_store.h: the group table in NVS, and its JSON rows.
-- `Nvs` stands for ESP-IDF's key-value flash storage, which the component calls. A call that cannot
-- open the namespace has no handle. The store's recursive mutex makes each operation one step.
pub mod Storage
pub mod FirstFree
pub mod Table
pub mod Writes
pub mod Refines
pub mod Create
pub mod Row
pub mod Api
use zhac_mono_core.Prelude.{
  ℕ, zero, suc, ◌+◌, ◌-◌, Bool, true, false, ◌&&◌, ◌||◌, not, Option, none, some, List, [], ◌∷◌,
  ◌++◌, ltb, ◌==◌, if◌then◌else◌, default, set, get_or,
}
use zhac_mono_core.Prelude.Bits.{test_bit, set_bit, clear_bit}
use zhac_mono_core.Prelude.Text.{bytes, hex_digit, hex_digit_upper, hex_fixed, decimal}
use zhac_mono_core.JsonWriter.{JsonWriter, open_writer, raw, ch, fmt, str, finish}
use Storage.{
  Nvs, Mode, readonly, readwrite, Erased, erased, not_found, failed, GrpMember, GrpRecord,
  grp_max_members, grp_max_groups,
}

abbrev pub bmp_key : List ℕ
bmp_key = bytes "bmp"

unfoldable pub grp_key : ℕ → List ℕ
unfolding hex_fixed
grp_key id = b'g' ∷ hex_fixed hex_digit 4 id

-- A blob must not carry a count above the array's bound.
unfoldable pub clamp : GrpRecord → GrpRecord
clamp r =
    if ltb grp_max_members r.member_count then record r { member_count = grp_max_members } else r

-- The loop of grp_next_id, for `rounds` more slots from `i` on.
unfoldable pub next_from : ℕ → ℕ → ℕ → ℕ
next_from zero i bmp = 0
next_from (suc rounds) i bmp =
    let later = next_from rounds (i + 1) bmp in if not (test_bit bmp i) then i + 1 else later

module _ (nvs : Nvs) where
  open nvs use {State, nvs_open, get_u32, set_u32, get_blob, set_blob, erase_key, commit}

  unfoldable pub grp_get_bmp : State → ℕ
  grp_get_bmp s = default (get_u32 s bmp_key) 0

  unfoldable pub grp_next_id : State → ℕ
  grp_next_id s = next_from grp_max_groups 0 (if nvs_open s readonly then grp_get_bmp s else 0)

  -- The blob of slot `i`, if the bitmap has the slot and the blob is whole and carries its own id.
  unfoldable pub slot_record : State → ℕ → ℕ → Option GrpRecord
  slot_record s bmp i = if not (test_bit bmp i) then none else elim (get_blob s (grp_key (i + 1))) [
    | none ↦ none
    | some b ↦ if b.whole && b.content.id == i + 1 then some (clamp b.content) else none
  ]

  -- The loop of grp_load_all, with room for `room` more records.
  unfoldable pub load_from : State → ℕ → ℕ → ℕ → ℕ → List GrpRecord
  load_from s bmp zero i room = []
  load_from s bmp (suc rounds) i room =
      let skip = load_from s bmp rounds (i + 1) room in
      let rest = load_from s bmp rounds (i + 1) (room - 1) in
      if room == 0 then [] else elim (slot_record s bmp i) [ none ↦ skip | some r ↦ r ∷ rest ]

  unfoldable pub grp_load_all : State → ℕ → List GrpRecord
  grp_load_all s max =
      if nvs_open s readonly then load_from s (grp_get_bmp s) grp_max_groups 0 max else []

  -- What follows a successful nvs_set_blob. The result of nvs_set_u32 is not read.
  unfoldable pub save_bitmap : State → ℕ → State × Bool
  save_bitmap s id = commit (set_u32 s bmp_key (set_bit (grp_get_bmp s) (id - 1))).0

  unfoldable pub grp_save : State → GrpRecord → State × Bool
  grp_save s r =
      let stored = set_blob s (grp_key r.id) r in
      if r.id == 0 || ltb grp_max_groups r.id
      then (s, false)
      else if not (nvs_open s readwrite)
      then (s, false)
      else if stored.1
      then save_bitmap stored.0 r.id
      else (stored.0, false)

  -- The new state, whether it succeeded, and the record with its new id.
  unfoldable pub grp_create : State → GrpRecord → State × Bool × GrpRecord
  grp_create s r =
      let r' = record r { id = grp_next_id s } in
      let saved = grp_save s r' in if r'.id == 0 then (s, false, r') else (saved.0, saved.1, r')

  -- What follows the erasure: each call only if all before it succeeded.
  unfoldable pub delete_bitmap : State → ℕ → State × Bool
  delete_bitmap s id =
      let cleared = set_u32 s bmp_key (clear_bit (grp_get_bmp s) (id - 1)) in
      if cleared.1 then commit cleared.0 else (cleared.0, false)

  unfoldable pub grp_delete : State → ℕ → State × Bool
  grp_delete s id =
      let gone = erase_key s (grp_key id) in
      if id == 0 || ltb grp_max_groups id
      then (s, false)
      else if not (nvs_open s readwrite)
      then (s, false)
      else elim gone.1 [
        | erased ↦ delete_bitmap gone.0 id
        | not_found ↦ delete_bitmap gone.0 id
        | failed ↦ (gone.0, false)
      ]

  -- The record found; none is `return false`.
  unfoldable pub grp_find : State → ℕ → Option GrpRecord
  grp_find s id = if not (nvs_open s readonly) then none else elim (get_blob s (grp_key id)) [
    | none ↦ none
    | some b ↦ if b.content.id == id then some b.content else none
  ]

-- One member: `if (i) w.ch(','); w.fmt("{\"ieee\":\"0x%016llX\",\"ep\":%u}", ...)`.
unfoldable pub member_text : GrpMember → List ℕ
unfolding hex_fixed decimal
member_text m =
    bytes "{\"ieee\":\"0x"
    ++ (hex_fixed hex_digit_upper 16 m.ieee ++ (bytes "\",\"ep\":" ++ (decimal m.ep ++ bytes "}")))

abbrev pub no_member : GrpMember
no_member = record { ieee = 0; ep = 0 }

unfoldable pub members_loop : JsonWriter → List GrpMember → ℕ → ℕ → JsonWriter
members_loop w members i zero = w
members_loop w members i (suc rounds) =
    let w' = if i == 0 then w else ch w b',' in
    members_loop (fmt w' (member_text (get_or members i no_member))) members (i + 1) rounds

unfoldable pub head_text : ℕ → List ℕ
unfolding decimal
head_text id = bytes "{\"id\":" ++ (decimal id ++ bytes ",\"name\":\"")

unfoldable pub row_writer : GrpRecord → List ℕ → ℕ → JsonWriter
row_writer r buf cap =
    let w1 = fmt (open_writer buf cap) (head_text r.id) in
    let w2 = str w1 r.name 32 in
    let w3 = raw w2 (bytes "\",\"members\":[") in
    let mc = if ltb grp_max_members r.member_count then grp_max_members else r.member_count in
    raw (members_loop w3 r.members 0 mc) (bytes "]}")

-- The length returned and the buffer, NUL-terminated where there is room.
unfoldable pub grp_to_json : GrpRecord → List ℕ → ℕ → ℕ × List ℕ
grp_to_json r buf cap =
    let w = row_writer r buf cap in
    (finish w, if ltb (finish w) cap then set w.buf (finish w) 0 else w.buf)
