-- ===== src/Utf8.antt =====
-- main/json_buf.h, utf8_seq_len and utf8_safe_copy. A C string is the list of its bytes before the
-- closing NUL, so that a read past the list is a read of that NUL.
pub mod Encoding
pub mod Sequence
pub mod Copy
use zhac_mono_core.Prelude.{
  ℕ, zero, suc, ◌+◌, ◌-◌, Bool, true, false, ◌&&◌, ◌||◌, Option, none, some, List, [], ◌∷◌, ◌++◌,
  ltb, leb, ◌==◌, if◌then◌else◌, get_or, take, drop, length,
}

-- need, lo and hi: the continuation bytes wanted, and the range of the first of them.
pub record Lead : Type 0 where
  pub need : ℕ
  pub lo : ℕ
  pub hi : ℕ

-- The ladder over the lead byte, from 0x80 up; none is `return 0`.
unfoldable pub lead : ℕ → Option Lead
lead c =
    if leb 0xC2 c && leb c 0xDF
    then some (record { need = 1; lo = 0x80; hi = 0xBF })
    else if c == 0xE0
    then some (record { need = 2; lo = 0xA0; hi = 0xBF })
    else if leb 0xE1 c && leb c 0xEC
    then some (record { need = 2; lo = 0x80; hi = 0xBF })
    else if c == 0xED
    then some (record { need = 2; lo = 0x80; hi = 0x9F })
    else if c == 0xEE || c == 0xEF
    then some (record { need = 2; lo = 0x80; hi = 0xBF })
    else if c == 0xF0
    then some (record { need = 3; lo = 0x90; hi = 0xBF })
    else if leb 0xF1 c && leb c 0xF3
    then some (record { need = 3; lo = 0x80; hi = 0xBF })
    else if c == 0xF4
    then some (record { need = 3; lo = 0x80; hi = 0x8F })
    else none

-- The loop over k, from `k` for `rounds` more; the byte s[k] is in range, or `return 0`.
unfoldable pub continues : List ℕ → Lead → ℕ → ℕ → Bool
continues s l k zero = true
continues s l k (suc rounds) =
    let rest = continues s l (suc k) rounds in
    let cc = get_or s k 0 in
    if ltb cc (if k == 1 then l.lo else 0x80) || ltb (if k == 1 then l.hi else 0xBF) cc
    then false
    else rest

unfoldable pub utf8_seq_len : List ℕ → ℕ → ℕ
utf8_seq_len s avail =
    let c = get_or s 0 0 in
    if avail == 0 then 0 else if ltb c 0x80 then 1 else elim (lead c) [
      | none ↦ 0
      | some l ↦
          if ltb avail (l.need + 1) then 0 else if continues s l 1 l.need then l.need + 1 else 0
    ]

-- The loop of utf8_safe_copy, over the source from offset `o` on: the bytes that it copies. A round
-- takes at least one byte, so one round more than the source has bytes is enough.
unfoldable pub copy_from : ℕ → List ℕ → ℕ → ℕ → List ℕ
copy_from zero src room o = []
copy_from (suc fuel) src room o =
    let n = utf8_seq_len src 4 in
    let copied = take n src ++ copy_from fuel (drop n src) room (o + n) in
    if get_or src 0 0 == 0 then [] else if n == 0 || ltb room (o + n) then [] else copied

-- The bytes of `dst` up to the NUL that is written last; none if nothing is written. The source
-- is none where it is null.
unfoldable pub utf8_safe_copy : ℕ → Option (List ℕ) → Option (List ℕ)
utf8_safe_copy dstsz src =
    if dstsz == 0
    then none
    else some (elim src [ none ↦ [] | some s ↦ copy_from (suc (length s)) s (dstsz - 1) 0 ])
