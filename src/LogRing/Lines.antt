-- ===== src/LogRing/Lines.antt =====
-- main/log_ring.cpp: from what a log call printed to the line that is kept, and its parts.
pub mod Parse
use zhac_mono_core.Prelude.{
  ℕ, zero, suc, ◌+◌, ◌-◌, ◌≤◌, Bool, true, false, ◌||◌, ◌&&◌, Option, none, some, List, [], ◌∷◌,
  ◌++◌, if◌then◌else◌, ltb, leb, ◌==◌, length, take,
}

-- The end of the text without its newlines and escapes, as the loop that shortens `buf` leaves it.
unfoldable pub trimmed : List ℕ → List ℕ
trimmed [] = []
trimmed (c ∷ buf) =
    let rest = trimmed buf in
    if length rest == 0 && (c == b'\n' || c == b'\r' || c == 0x1b) then [] else c ∷ rest

-- The text after the next `m`.
unfoldable pub after_m : List ℕ → List ℕ
after_m [] = []
after_m (c ∷ buf) = let rest = after_m buf in if c == b'm' then buf else rest

-- The loop that leaves out ESC `[` ... `m`, for `rounds` steps; `room` bytes are left of `clean`.
unfoldable pub clean_from : ℕ → ℕ → List ℕ → List ℕ
clean_from zero room buf = []
clean_from (suc rounds) zero buf = []
clean_from (suc rounds) (suc room) [] = []
clean_from (suc rounds) (suc room) (c ∷ []) = c ∷ []
clean_from (suc rounds) (suc room) (c ∷ d ∷ buf) = elim (c == 0x1b && d == b'[') [
  | true ↦ clean_from rounds (suc room) (after_m buf)
  | false ↦ c ∷ clean_from rounds room (d ∷ buf)
]

-- vsnprintf into 192 bytes, trimmed and cleaned.
unfoldable pub clean_line : List ℕ → List ℕ
clean_line printed = let buf = trimmed (take 191 printed) in clean_from (length buf) 191 buf

unfoldable pub skip_spaces : List ℕ → List ℕ
skip_spaces [] = []
skip_spaces (c ∷ s) = let rest = skip_spaces s in if c == b' ' then rest else c ∷ s

-- strchr: the text before the first `c` and the text after it.
unfoldable pub split_at : ℕ → List ℕ → Option (List ℕ × List ℕ)
split_at c [] = none
split_at c (x ∷ s) =
    let later : Option (List ℕ × List ℕ) = elim (split_at c s) [
      | none ↦ none
      | some (before, rest) ↦ some (x ∷ before, rest)
    ] in
    if x == c then some ([], s) else later

unfoldable pub is_level : ℕ → Bool
is_level c = c == b'E' || c == b'W' || c == b'I' || c == b'D' || c == b'V'

pub record LogParts : Type 0 where
  pub level : ℕ
  pub tag : List ℕ
  pub msg : List ℕ

-- The text behind the first `)`.
unfoldable pub tag_and_msg : ℕ → ℕ → List ℕ → List ℕ → LogParts
tag_and_msg lvl tag_cap line p = elim (split_at b':' (skip_spaces p)) [
  | none ↦ record { level = lvl; tag = []; msg = line }
  | some (before, rest) ↦ record {
    level = lvl;
    tag = take (tag_cap - 1) before;
    msg = skip_spaces rest;
  }
]

unfoldable pub parse_line : List ℕ → ℕ → LogParts
parse_line [] tag_cap = record { level = b'I'; tag = []; msg = [] }
parse_line (lvl ∷ line) tag_cap =
    let behind : LogParts = elim (split_at b')' (lvl ∷ line)) [
      | none ↦ record { level = lvl; tag = []; msg = lvl ∷ line }
      | some (before, p) ↦ tag_and_msg lvl tag_cap (lvl ∷ line) p
    ] in
    if is_level lvl then behind else record { level = b'I'; tag = []; msg = lvl ∷ line }
