-- ===== src/Devlist/Page.antt =====
-- main/ws_bridge.cpp, device.list: one page of at most 8 KB in IEEE order, and the whole list in pool order.
-- `Zap` stands for the device records of the Zigbee component and for the labels of its definitions.
pub mod Walk
pub mod Pages
pub mod Local
use zhac_mono_core.Prelude.{
  ℕ, zero, suc, ◌+◌, ◌*◌, ◌^◌, ◌≤◌, ◌<◌, Bool, true, false, ◌&&◌, ◌||◌, not, Option, none, some,
  List, [], ◌∷◌, ◌++◌, ltb, leb, ◌==◌, if◌then◌else◌, length, take, get_elem?,
}
use zhac_mono_core.Prelude.Text.{bytes, decimal, hex_fixed, hex_digit_upper}
use zhac_mono_core.Prelude.Hex.{strtoull16}
use zhac_mono_core.Devlist.Next.{devlist_next}
use zhac_mono_core.Devlist.Escape.{DevlistRow, devlist_row, row_cap}

-- The fields of ZapDevice that a row reads; `last_seen` and `battery` are the texts that printf makes of them.
-- `resolve_labels` gives the vendor and the model that a definition names, [] where none matches.
pub record Zap : Type 1 where
  pub Device : Type 0
  pub ieee_addr : Device → ℕ
  pub nwk_addr : Device → ℕ
  pub friendly_name : Device → List ℕ
  pub model_id : Device → List ℕ
  pub manufacturer_name : Device → List ℕ
  pub last_seen : Device → List ℕ
  pub link_quality : Device → ℕ
  pub battery_pct : Device → List ℕ
  pub endpoint_count : Device → ℕ
  pub is_removed : Device → Bool
  pub resolve_labels : List ℕ → List ℕ → List ℕ × List ℕ

-- The numbers are of their C types, and printf makes at most 20 and 11 characters of the signed ones.
pub record IsZap (zap : Zap) : Type 0 where
  pub ieee_small : (d : zap.Device) → zap.ieee_addr d < 2 ^ 64
  pub nwk_small : (d : zap.Device) → zap.nwk_addr d < 2 ^ 32
  pub lqi_small : (d : zap.Device) → zap.link_quality d < 2 ^ 32
  pub eps_small : (d : zap.Device) → zap.endpoint_count d < 2 ^ 32
  pub seen_short : (d : zap.Device) → length (zap.last_seen d) ≤ 20
  pub battery_short : (d : zap.Device) → length (zap.battery_pct d) ≤ 11

abbrev pub page_cap : ℕ
page_cap = 8192

abbrev pub tail_cap : ℕ
tail_cap = 48

abbrev pub first_or : List ℕ → List ℕ → List ℕ
first_or [] other = other
first_or (c ∷ s) other = c ∷ s

-- snprintf's length is that of the text, and a row counts if it is 1..639 bytes.
abbrev pub row_fits : List ℕ → Bool
row_fits row = not (length row == 0 || leb row_cap (length row))

-- The fixed parts of the replies.
abbrev pub page_head : ℕ → List ℕ
page_head id = bytes "{\"id\":" ++ (decimal id ++ bytes ",\"ok\":true,\"data\":{\"items\":[")

abbrev pub cursor_text : ℕ → List ℕ
cursor_text last = bytes "0x" ++ hex_fixed hex_digit_upper 16 last

abbrev pub page_tail : Bool → ℕ → List ℕ
page_tail more last =
    if more then bytes "],\"next_cursor\":\"" ++ (cursor_text last ++ bytes "\"}}") else bytes "]}}"

abbrev pub list_head : ℕ → List ℕ
list_head id = bytes "{\"id\":" ++ (decimal id ++ bytes ",\"ok\":true,\"data\":[")

-- An optional 0x, then strtoull; none is a null pointer.
unfoldable pub parse_ieee : List ℕ → ℕ
parse_ieee (z ∷ x ∷ s) =
    let plain = strtoull16 (z ∷ x ∷ s) in
    let rest = strtoull16 s in if z == b'0' && (x == b'x' || x == b'X') then rest else plain
parse_ieee s = strtoull16 s

module _ (zap : Zap) where
  open zap use {Device, ieee_addr, is_removed}

  abbrev pub live : Device → Bool
  live d = not (is_removed d)

  unfoldable pub format_device_row : Device → Bool → List ℕ
  format_device_row d is_first =
      let labels = zap.resolve_labels (zap.model_id d) (zap.manufacturer_name d) in
      devlist_row
        (record {
          ieee = ieee_addr d;
          nwk = zap.nwk_addr d;
          friendly = zap.friendly_name d;
          model = first_or labels.1 (zap.model_id d);
          manufacturer = zap.manufacturer_name d;
          vendor = first_or labels.0 (zap.manufacturer_name d);
          model_id = zap.model_id d;
          known = not (length labels.1 == 0);
          last_seen = zap.last_seen d;
          lqi = zap.link_quality d;
          battery = zap.battery_pct d;
          ep_count = zap.endpoint_count d;
        })
        is_first

  -- The loop: the text so far, whether a page follows, and the last address. none: the fuel ran out.
  unfoldable pub page_from : ℕ → List Device → List ℕ → Bool → ℕ → Option (List ℕ × Bool × ℕ)
  page_from zero pool out is_first last = none
  page_from (suc fuel) pool out is_first last = elim (devlist_next ieee_addr live pool last) [
    | none ↦ some (out, false, last)
    | some i ↦ elim (get_elem? pool i) [
      | none ↦ none
      | some d ↦ elim (row_fits (format_device_row d is_first)) [
        | false ↦ page_from fuel pool out is_first (ieee_addr d)
        | true ↦
            elim (leb page_cap (length out + length (format_device_row d is_first) + tail_cap)) [
              | true ↦ some (out, true, last)
              | false ↦
                  page_from fuel pool (out ++ format_device_row d is_first) false (ieee_addr d)
            ]
      ]
    ]
  ]

  -- The reply of cmd_device_list_page; a round takes a device, so there are at most one more than devices.
  unfoldable pub page_text : List Device → ℕ → ℕ → Option (List ℕ)
  page_text pool id after = elim (page_from (length pool + 1) pool (page_head id) true after) [
    | none ↦ none
    | some (out, more, last) ↦ some (out ++ page_tail more last)
  ]

  -- The loop of cmd_device_list over the pool.
  unfoldable pub list_rows : ℕ → List Device → List ℕ → Bool → List ℕ
  list_rows cap [] out is_first = out
  list_rows cap (d ∷ ds) out is_first =
      let row = format_device_row d is_first in
      let skip = list_rows cap ds out is_first in
      let keep = list_rows cap ds (out ++ row) false in
      if is_removed d || not (row_fits row)
      then skip
      else if leb cap (length out + length row + 4)
      then out
      else keep

  -- The local reply; `counted` is the pool's size when the buffer was allocated.
  unfoldable pub list_reply : ℕ → List Device → ℕ → List ℕ
  list_reply counted pool id =
      list_rows (64 + (counted + 4) * row_cap) pool (list_head id) true ++ bytes "]}"
