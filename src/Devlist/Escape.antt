-- ===== src/Devlist/Escape.antt =====
-- main/devlist_page.h: json_escape and the row of one device.
pub mod Pieces
pub mod Row
use zhac_mono_core.Prelude.{
  ℕ, zero, suc, ◌+◌, ◌/◌, ◌%◌, Bool, true, false, ◌||◌, ◌&&◌, not, List, [], ◌∷◌, ◌++◌,
  if◌then◌else◌, ltb, leb, ◌==◌, length, take, drop, String,
}
use zhac_mono_core.Prelude.Text.{bytes, hex_digit, hex_digit_upper, hex_fixed, decimal}

-- What one round writes, and how many bytes of the source it takes.
pub record EscPiece : Type 0 where
  pub text : List ℕ
  pub step : ℕ

-- The bytes 10xxxxxx at the front.
unfoldable pub continuations : List ℕ → ℕ
continuations [] = 0
continuations (c ∷ s) = let rest = continuations s in if c / 64 == 2 then suc rest else 0

-- The source from `c` on.
unfoldable pub esc_piece : ℕ → List ℕ → EscPiece
esc_piece c s =
    if c == b'"' || c == b'\\'
    then record { text = b'\\' ∷ c ∷ []; step = 1 }
    else if ltb c 0x20
    then record { text = bytes "\\u00" ++ (hex_digit (c / 16) ∷ hex_digit (c % 16) ∷ []); step = 1 }
    else record { text = c ∷ take (continuations s) s; step = suc (continuations s) }

-- The loop; a round takes a byte or more.
unfoldable pub escape_from : ℕ → ℕ → List ℕ → List ℕ → List ℕ
escape_from zero cap s dst = dst
escape_from (suc rounds) cap [] dst = dst
escape_from (suc rounds) cap (c ∷ s) dst =
    let piece = esc_piece c s in
    elim (leb cap (length dst + length piece.text)) [
      | true ↦ dst
      | false ↦ escape_from rounds cap (drop piece.step (c ∷ s)) (dst ++ piece.text)
    ]

-- `src` is the string before its NUL, [] for a null pointer; the length returned is the result's.
unfoldable pub json_escape : List ℕ → ℕ → List ℕ
json_escape src cap = escape_from (length src) cap src []

abbrev pub field_cap : ℕ
field_cap = 64

abbrev pub row_cap : ℕ
row_cap = 640

-- `last_seen` and `battery` are the texts that printf makes of them.
pub record DevlistRow : Type 0 where
  pub ieee : ℕ
  pub nwk : ℕ
  pub friendly : List ℕ
  pub model : List ℕ
  pub manufacturer : List ℕ
  pub vendor : List ℕ
  pub model_id : List ℕ
  pub known : Bool
  pub last_seen : List ℕ
  pub lqi : ℕ
  pub battery : List ℕ
  pub ep_count : ℕ

unfoldable pub field : String → List ℕ → List ℕ
field key src = bytes key ++ (json_escape src field_cap ++ bytes "\"")

-- The text that snprintf is given; it fits `cap` bytes where it is shorter.
unfoldable pub devlist_row : DevlistRow → Bool → List ℕ
devlist_row r is_first =
    (if is_first then [] else bytes ",")
    ++ (bytes "{\"ieee\":\"0x" ++ hex_fixed hex_digit_upper 16 r.ieee)
    ++ (bytes "\",\"nwk\":" ++ decimal r.nwk)
    ++ field ",\"friendly\":\"" r.friendly
    ++ field ",\"name\":\"" r.friendly
    ++ field ",\"model\":\"" r.model
    ++ field ",\"manufacturer\":\"" r.manufacturer
    ++ field ",\"vendor\":\"" r.vendor
    ++ field ",\"model_id\":\"" r.model_id
    ++ (bytes ",\"known\":" ++ (if r.known then bytes "true" else bytes "false"))
    ++ (bytes ",\"last_seen\":" ++ r.last_seen)
    ++ (bytes ",\"lqi\":" ++ decimal r.lqi)
    ++ (bytes ",\"battery\":" ++ r.battery)
    ++ (bytes ",\"ep_count\":" ++ (decimal r.ep_count ++ bytes "}"))
