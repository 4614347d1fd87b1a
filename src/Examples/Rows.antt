-- ===== src/Examples/Rows.antt =====
-- Examples of device.list rows.
use zhac_mono_core.Prelude.{◌≡◌, ◌≤◌, refl, false, true, [], ◌∷◌, length, arith}
use zhac_mono_core.Prelude.Text.{bytes}
use zhac_mono_core.Devlist.Escape.{
  DevlistRow, json_escape, escape_from, esc_piece, continuations, devlist_row,
}
use zhac_mono_core.Devlist.Escape.Row.{devlist_row-length}

-- A quote is escaped, and "é" is not split.
cut_escape : json_escape (b'"' ∷ 0xC3 ∷ 0xA9 ∷ []) 4 ≡ b'\\' ∷ b'"' ∷ []
unfolding json_escape escape_from esc_piece continuations
cut_escape = refl

abbrev lamp : DevlistRow
lamp = record {
  ieee = 0xAB;
  nwk = 7;
  friendly = bytes "lamp";
  model = bytes "m";
  manufacturer = [];
  vendor = [];
  model_id = [];
  known = true;
  last_seen = bytes "-1";
  lqi = 255;
  battery = bytes "-1";
  ep_count = 1;
}

devlist_row-length_example : length (devlist_row lamp false) ≤ 612
devlist_row-length_example =
    devlist_row-length lamp false (omega arith) (omega arith) (omega arith) (omega arith)
      (omega arith)
