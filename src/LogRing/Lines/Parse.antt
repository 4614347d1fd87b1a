-- ===== src/LogRing/Lines/Parse.antt =====
-- main/log_ring.cpp: the parts of a line in the format of ESP-IDF.
use zhac_mono_core.Prelude.{
  ℕ, zero, suc, ◌-◌, ◌≤◌, ◌≡◌, refl, ◌≢◌, ap, true, false, ◌&&◌, some, List, [], ◌∷◌, ◌++◌, ◌==◌,
  length, take, All, arith,
}
use zhac_mono_core.Prelude.Text.{bytes}
use zhac_mono_core.LogRing.Lines.{
  clean_from, after_m, skip_spaces, split_at, is_level, tag_and_msg, parse_line,
}

split_first :
    (c : ℕ) (before rest : List ℕ)
    → All (λ x. x ≢ c) before
    → split_at c (before ++ c ∷ rest) ≡ some (before, rest)
unfolding split_at
split_first c [] rest h = let same : (c == c) ≡ true = ground arith in rw same refl
split_first c (x ∷ before) rest (n, h) =
    let other : (x == c) ≡ false = ground arith in rw (other, split_first c before rest h) refl

-- A text that does not begin with a space.
unfoldable pub NoSpace : List ℕ → Type 0
NoSpace [] = Unit
NoSpace (c ∷ s) = c ≢ b' '

no_skip : (s : List ℕ) → NoSpace s → skip_spaces s ≡ s
unfolding NoSpace skip_spaces
no_skip [] h = refl
no_skip (c ∷ s) h = let other : (c == b' ') ≡ false = ground arith in rw other refl

one_skip : (s : List ℕ) → NoSpace s → skip_spaces (b' ' ∷ s) ≡ s
unfolding skip_spaces
one_skip s h = no_skip s h

starts : (tag rest : List ℕ) → NoSpace (tag ++ bytes ":") → NoSpace (tag ++ b':' ∷ rest)
unfolding NoSpace
starts [] rest h = h
starts (c ∷ tag) rest h = h

-- A line `L (time) tag: message`, with no `)` in the time, no `:` in the tag, and neither the tag nor the message begun by
-- a space, is parsed into its level, the first `tag_cap` - 1 bytes of its tag, and its message.
pub parse_line-format :
    (lvl tag_cap : ℕ) (time tag msg : List ℕ)
    → is_level lvl ≡ true
    → All (λ x. x ≢ b')') time
    → All (λ x. x ≢ b':') tag
    → NoSpace (tag ++ bytes ":")
    → NoSpace msg
    → parse_line
        (lvl ∷ bytes " (" ++ (time ++ (bytes ") " ++ (tag ++ (bytes ": " ++ msg)))))
        tag_cap
      ≡ record { level = lvl; tag = take (tag_cap - 1) tag; msg = msg }
unfolding parse_line tag_and_msg is_level
parse_line-format lvl tag_cap time tag msg known t g n m =
    let rest : List ℕ = b' ' ∷ (tag ++ (bytes ": " ++ msg)) in
    let no_end : lvl ≢ b')' = λ e. ground arith in
    let first =
      split_first b')' (lvl ∷ b' ' ∷ b'(' ∷ time) rest
        (no_end, ((λ e. ground arith), ((λ e. ground arith), t))) in
    let skipped = one_skip (tag ++ (bytes ": " ++ msg)) (starts tag (b' ' ∷ msg) n) in
    rw (known, first)
      (rw (tag_and_msg, skipped, split_first b':' tag (b' ' ∷ msg) g) (rw (one_skip msg m) refl))

behind :
    (colour text : List ℕ) → All (λ x. x ≢ b'm') colour → after_m (colour ++ b'm' ∷ text) ≡ text
unfolding after_m
behind [] text h = refl
behind (x ∷ colour) text (n, h) =
    let other : (x == b'm') ≡ false = ground arith in rw (other, behind colour text h) refl

plain :
    (rounds room : ℕ) (text : List ℕ)
    → length text ≤ rounds
    → length text ≤ room
    → All (λ x. x ≢ 0x1b) text
    → clean_from rounds room text ≡ text
unfolding clean_from
plain zero room [] h k t = refl
plain (suc rounds) zero [] h k t = refl
plain (suc rounds) (suc room) [] h k t = refl
plain zero room (c ∷ text) h k t = absurd (omega arith)
plain (suc rounds) zero (c ∷ text) h k t = absurd (omega arith)
plain (suc rounds) (suc room) (c ∷ []) h k t = refl
plain (suc rounds) (suc room) (c ∷ d ∷ text) h k (n, t) =
    let other : (c == 0x1b && d == b'[') ≡ false = ground arith in
    rw (clean_from, other)
      (ap (λ xs. c ∷ xs) (plain rounds room (d ∷ text) (omega arith) (omega arith) t))

-- With enough rounds and room, clean_from leaves out a colour code `ESC [ ... m` in front of a text without escapes, and keeps the text.
pub clean_from-colour :
    (rounds room : ℕ) (colour text : List ℕ)
    → length text ≤ rounds
    → length text ≤ room
    → All (λ x. x ≢ b'm') colour
    → All (λ x. x ≢ 0x1b) text
    → clean_from (suc rounds) (suc room) (0x1b ∷ b'[' ∷ colour ++ b'm' ∷ text) ≡ text
unfolding clean_from
clean_from-colour rounds room colour text h k c t =
    rw (behind colour text c) (plain rounds (suc room) text h (omega arith) t)
