-- ===== src/JsonWriter.antt =====
-- main/json_buf.h, class JsonWriter: a bounded append that fails closed.
-- `buf` is the destination's memory, all `cap` bytes of it; a write outside it would be lost.
-- `fmt` takes the text that printf makes of its arguments.
pub mod Memory
pub mod Append
pub mod Escape
pub mod Meaning
use zhac_mono_core.Prelude.{
  ℕ, zero, suc, ◌+◌, ◌-◌, ◌/◌, ◌%◌, Bool, true, false, ◌||◌, List, [], ◌∷◌, ◌++◌, ltb, leb, ◌==◌,
  if◌then◌else◌, get_or, set, take, drop, length,
}
use zhac_mono_core.Prelude.Text.{bytes, hex_digit, hex_fixed}
use zhac_mono_core.Utf8.{utf8_seq_len}

pub record JsonWriter : Type 0 where
  pub buf : List ℕ
  pub cap : ℕ
  pub pos : ℕ
  pub ok : Bool

unfoldable pub open_writer : List ℕ → ℕ → JsonWriter
open_writer buf cap = record { buf = buf; cap = cap; pos = 0; ok = true }

unfoldable pub put : JsonWriter → ℕ → JsonWriter × Bool
put w c =
    if leb w.cap w.pos
    then (record w { ok = false }, false)
    else (record w { buf = set w.buf w.pos c; pos = w.pos + 1 }, true)

-- `for (...) if (!put(...)) break;`, and whether every byte fitted.
unfoldable pub put_all : JsonWriter → List ℕ → JsonWriter × Bool
put_all w [] = (w, true)
put_all w (c ∷ s) =
    let rest = put_all (put w c).0 s in if (put w c).1 then rest else ((put w c).0, false)

-- The NUL-terminated raw, and the (s, len) one: `s` holds the bytes to copy.
unfoldable pub raw : JsonWriter → List ℕ → JsonWriter
raw w s = if w.ok then (put_all w s).0 else w

unfoldable pub ch : JsonWriter → ℕ → JsonWriter
ch w c = if w.ok then (put w c).0 else w

-- The bytes of `text` written from `pos` on.
unfoldable pub store : List ℕ → ℕ → List ℕ → List ℕ
store buf pos [] = buf
store buf pos (c ∷ text) = store (set buf pos c) (pos + 1) text

-- vsnprintf into `rem` bytes at `pos`: what fits of the text before a NUL, and that NUL.
unfoldable pub vsnprintf : List ℕ → ℕ → ℕ → List ℕ → List ℕ
vsnprintf buf pos rem text = if rem == 0 then buf else store buf pos (take (rem - 1) text ++ 0 ∷ [])

unfoldable pub fmt : JsonWriter → List ℕ → JsonWriter
fmt w text =
    let rem = w.cap - w.pos in
    let written = vsnprintf w.buf w.pos rem text in
    if w.ok
    then (if leb rem (length text)
        then record w { buf = written; ok = false }
        else record w { buf = written; pos = w.pos + length text })
    else w

-- One round of the loop of str, at s[i] with `avail` = max - i bytes left: what it puts, and by how
-- much it advances.
abbrev short_escape : ℕ → ℕ
short_escape c =
    if c == b'"'
    then b'"'
    else if c == b'\\'
    then b'\\'
    else if c == 10
    then b'n'
    else if c == 13
    then b'r'
    else b't'

abbrev pub replacement : List ℕ
replacement = b'\\' ∷ bytes "ufffd"

pub record Piece : Type 0 where
  pub text : List ℕ
  pub step : ℕ

unfoldable pub str_piece : List ℕ → ℕ → Piece
str_piece s avail =
    let c = get_or s 0 0 in
    let n = utf8_seq_len s avail in
    if c == b'"' || c == b'\\' || c == 10 || c == 13 || c == 9
    then record { text = b'\\' ∷ short_escape c ∷ []; step = 1 }
    else if ltb c 0x20
    then record { text = b'\\' ∷ bytes "u" ++ hex_fixed hex_digit 4 c; step = 1 }
    else if ltb c 0x80
    then record { text = c ∷ []; step = 1 }
    else if n == 0
    then record { text = replacement; step = 1 }
    else record { text = take n s; step = n }

-- The loop of str, over the source from `i` on. A round advances by at least one byte.
unfoldable pub str_from : ℕ → JsonWriter → List ℕ → ℕ → JsonWriter
str_from zero w s avail = w
str_from (suc fuel) w s avail =
    let p = str_piece s avail in
    let rest = str_from fuel (put_all w p.text).0 (drop p.step s) (avail - p.step) in
    if avail == 0 || get_or s 0 0 == 0
    then w
    else if (put_all w p.text).1
    then rest
    else (put_all w p.text).0

unfoldable pub str : JsonWriter → List ℕ → ℕ → JsonWriter
unfolding str_from
str w s max = if w.ok then str_from (suc (length s)) w s max else w

unfoldable pub finish : JsonWriter → ℕ
finish w = if w.ok then w.pos else 0
