-- ===== src/Devlist/Page/Local.antt =====
-- main/ws_bridge.cpp, cmd_device_list: the local reply holds every live device.
use zhac_mono_core.Prelude.{
  ℕ, ◌+◌, ◌*◌, ◌^◌, ◌≤◌, ◌<◌, ◌≡◌, refl, ◌∙◌, sym, inl, inr, Bool, true, false, List, [], ◌∷◌, ◌++◌,
  arith, leb, if◌then◌else◌, length, Bool-cases, append-nil, append_assoc, length-append,
}
use zhac_mono_core.Prelude.Text.{bytes, decimal}
use zhac_mono_core.Devlist.Escape.{row_cap}
use zhac_mono_core.Devlist.Escape.Row.{ten_digits}
use zhac_mono_core.Devlist.Page.{Zap, IsZap, format_device_row, list_head, list_rows, list_reply}
use zhac_mono_core.Devlist.Page.Walk.{
  rows_text, length-format_device_row, format_device_row-row_fits,
}

-- The devices that are not removed, in pool order.
pub present : (zap : Zap) → List zap.Device → List zap.Device
present zap [] = []
present zap (d ∷ ds) = if zap.is_removed d then present zap ds else d ∷ present zap ds

list_rows-present :
    (zap : Zap)
    → IsZap zap
    → (cap : ℕ) (ds : List zap.Device) (out : List ℕ) (is_first : Bool)
    → length out + row_cap * length ds ≤ cap
    → list_rows zap cap ds out is_first ≡ out ++ rows_text zap is_first (present zap ds)
unfolding list_rows present rows_text
list_rows-present zap law cap [] out is_first h = sym (append-nil out)
list_rows-present zap law cap (d ∷ ds) out is_first h =
    let row = format_device_row zap d is_first in
    let fits = format_device_row-row_fits zap law d is_first in
    let (pos, short) = length-format_device_row zap law d is_first in
    let room : leb cap (length out + length row + 4) ≡ false = ground arith in
    elim (Bool-cases (zap.is_removed d)) [
      | inl e ↦ rw e (list_rows-present zap law cap ds out is_first (omega arith))
      | inr e ↦
          rw (e, fits, room)
            (list_rows-present zap law cap ds (out ++ row) false
                (omega (arith, length-append out row))
              ∙ append_assoc out row (rows_text zap false (present zap ds)))
    ]

length-list_head : (id : ℕ) → id < 2 ^ 32 → length (list_head id) ≤ 64
length-list_head id h =
    omega (arith, length-append (decimal id) (bytes ",\"ok\":true,\"data\":["), ten_digits id h)

-- Where at most four devices joined between the allocation and the lock, the local reply is the head, the rows of
-- all devices that are not removed in pool order, and the end: none is left out.
pub list_reply-whole :
    (zap : Zap)
    → IsZap zap
    → (counted : ℕ) (pool : List zap.Device) (id : ℕ) → id < 2 ^ 32
    → length pool ≤ counted + 4
    → list_reply zap counted pool id
      ≡ list_head id ++ rows_text zap true (present zap pool) ++ bytes "]}"
unfolding list_reply
list_reply-whole zap law counted pool id small joined =
    rw
      (list_rows-present zap law (64 + (counted + 4) * row_cap) pool (list_head id) true
        (omega (arith, length-list_head id small)))
      refl
