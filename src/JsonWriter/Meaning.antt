-- ===== src/JsonWriter/Meaning.antt =====
-- What the text put by JsonWriter.str stands for.
use zhac_mono_core.Prelude.{
  ℕ, zero, suc, ◌+◌, ◌-◌, ◌/◌, ◌%◌, ◌≤◌, ◌<◌, ◌≡◌, refl, ◌≢◌, inl, inr, true, false, ◌||◌, List, [],
  ◌∷◌, ◌++◌, arith, length, take, take_all, drop, get_or, ltb, ◌==◌, if◌then◌else◌, Bool-cases,
  if_cases, ==_iff, ==→ne, ||-false, ltb→lt, ltb→le, ap, ◌∙◌, subst, All, All-append_right,
  take-append, drop-append, length-append,
}
use zhac_mono_core.Prelude.Text.{hex_digit, hex_fixed, bytes}
use zhac_mono_core.Utf8.{utf8_seq_len}
use zhac_mono_core.Utf8.Encoding.{encode, IsUtf8, end, char}
use zhac_mono_core.Utf8.Sequence.{utf8_seq_len-IsSequence, utf8_seq_len-encode, decode}
use zhac_mono_core.Json.{
  HexDigit, Denotes, Denotes-IsUtf8, done, plain, short, unicode, ShortEscape, quote, backslash,
  newline, return, tab,
}
use zhac_mono_core.JsonWriter.Escape.{escaped_from, escaped, str-Appends}
use zhac_mono_core.JsonWriter.Append.{IsWriter, Appends, written}
use zhac_mono_core.JsonWriter.{JsonWriter, str, Piece, str_piece, short_escape, replacement}

-- The text of at most `avail` bytes of a C string, each byte that starts no whole character replaced
-- by U+FFFD.
pub sanitized_from : ℕ → List ℕ → ℕ → List ℕ
sanitized_from zero s avail = []
sanitized_from (suc fuel) s avail =
    let n = utf8_seq_len s avail in
    let bad = encode 0xFFFD ++ sanitized_from fuel (drop 1 s) (avail - 1) in
    let good = take n s ++ sanitized_from fuel (drop n s) (avail - n) in
    if avail == 0 || get_or s 0 0 == 0 then [] else if n == 0 then bad else good

pub sanitized : List ℕ → ℕ → List ℕ
sanitized s max = sanitized_from (suc (length s)) s max

-- The value of one round.
abbrev value_step : List ℕ → ℕ → ℕ
value_step s avail = if utf8_seq_len s avail == 0 then 1 else utf8_seq_len s avail

abbrev value_text : List ℕ → ℕ → List ℕ
value_text s avail =
    if utf8_seq_len s avail == 0 then encode 0xFFFD else take (utf8_seq_len s avail) s

seq_len_small :
    (c : ℕ) (t : List ℕ) (avail : ℕ) → c < 0x80 → avail ≢ 0 → utf8_seq_len (c ∷ t) avail ≡ 1
unfolding utf8_seq_len
seq_len_small c t avail h k = ground arith

-- A piece denotes its value, before any content.
abbrev Fits : List ℕ → ℕ → Piece → Type 0
Fits s avail p =
    (p.step ≡ value_step s avail)
    × ((rest v : List ℕ) → Denotes rest v → Denotes (p.text ++ rest) (value_text s avail ++ v))

ascii-Fits :
    (c : ℕ) (t : List ℕ) (avail : ℕ) (p : Piece)
    → avail ≢ 0
    → c < 0x80
    → p.step ≡ 1
    → ((rest v : List ℕ) → Denotes rest v → Denotes (p.text ++ rest) (c ∷ v))
    → Fits (c ∷ t) avail p
ascii-Fits c t avail p av small one d =
    let e : utf8_seq_len (c ∷ t) avail ≡ 1 = seq_len_small c t avail small av in rw e (one, d)

short_of :
    (c : ℕ)
    → (c == b'"' || c == b'\\' || c == 10 || c == 13 || c == 9) ≡ true
    → ShortEscape (short_escape c) c
short_of c h =
    if_cases Is (c == b'"') _ _ (λ e. quote refl ((==_iff c _).0 e))
      λ e1.
        if_cases Is (c == b'\\') _ _ (λ e. backslash refl ((==_iff c _).0 e))
          λ e2.
            if_cases Is (c == 10) _ _ (λ e. newline refl ((==_iff c _).0 e))
              λ e3.
                if_cases Is (c == 13) _ _ (λ e. return refl ((==_iff c _).0 e))
                  λ e4. tab refl (ground arith)
  where
    Is : ℕ → Type 0
    Is e = ShortEscape e c

hex_digit-HexDigit : (v : ℕ) → v < 16 → HexDigit (hex_digit v) v
hex_digit-HexDigit v h = ground arith

control-Denotes :
    (c : ℕ) (rest v : List ℕ)
    → c < 0x20
    → Denotes rest v
    → Denotes ((b'\\' ∷ bytes "u" ++ hex_fixed hex_digit 4 c) ++ rest) (c ∷ v)
unfolding hex_fixed
control-Denotes c rest v h d =
    unicode (c / 16 / 16 / 16 % 16) (c / 16 / 16 % 16) (c / 16 % 16) (c % 16)
      (hex_digit-HexDigit _ (omega arith)) (hex_digit-HexDigit _ (omega arith))
      (hex_digit-HexDigit _ (omega arith)) (hex_digit-HexDigit _ (omega arith)) (ground arith) refl
      (ground arith) d

replacement-Denotes :
    (rest v : List ℕ) → Denotes rest v → Denotes (replacement ++ rest) (encode 0xFFFD ++ v)
replacement-Denotes rest v d =
    unicode 15 15 15 13 (omega arith) (omega arith) (omega arith) (omega arith) (omega arith) refl
      refl d

large : (n c : ℕ) (t : List ℕ) (cp : ℕ) → 0 < n → take n (c ∷ t) ≡ encode cp → 0x80 ≤ c → 0x80 ≤ cp
large zero c t cp p e h = elim p [ ]
large (suc n) c t cp p e h = ground arith

piece-Fits :
    (c : ℕ) (t : List ℕ) (avail : ℕ) → avail ≢ 0 → Fits (c ∷ t) avail (str_piece (c ∷ t) avail)
unfolding str_piece
piece-Fits c t avail av =
    if_cases Is (c == b'"' || c == b'\\' || c == 10 || c == 13 || c == 9) _ _
      (λ e1.
        ascii-Fits c t avail (record { text = b'\\' ∷ short_escape c ∷ []; step = 1 }) av
          (ground arith) refl λ rest v d. short (short_of c e1) refl refl d)
      λ e1.
        if_cases Is (ltb c 0x20) _ _
          (λ e2.
            ascii-Fits c t avail
              (record { text = b'\\' ∷ bytes "u" ++ hex_fixed hex_digit 4 c; step = 1 }) av
              (ground arith) refl λ rest v d. control-Denotes c rest v (ltb→lt _ _ e2) d)
          λ e2.
            if_cases Is (ltb c 0x80) _ _
              (λ e3.
                ascii-Fits c t avail (record { text = c ∷ []; step = 1 }) av (ltb→lt _ _ e3) refl
                  λ rest v d. plain c (ground arith) (ground arith) (ground arith) d)
              λ e3.
                if_cases Is (utf8_seq_len (c ∷ t) avail == 0) _ _
                  (λ e4. rw e4 (refl, replacement-Denotes))
                  λ e4.
                    let (scalar, code, _, _, pos) =
                      utf8_seq_len-IsSequence c t avail (==→ne _ _ e4) in
                    let top : 0x80 ≤ decode (utf8_seq_len (c ∷ t) avail) (c ∷ t) =
                      large _ c t _ pos code (ltb→le _ _ e3) in
                    rw e4 (
                      refl,
                      λ rest v d.
                          plain _ (scalar, omega arith, omega arith, omega arith)
                            (ap (λ (p : List ℕ). p ++ rest) code) (ap (λ (p : List ℕ). p ++ v) code)
                            d,
                    )
  where
    Is : Piece → Type 0
    Is = Fits (c ∷ t) avail

sanitized_step :
    (fuel : ℕ) (s : List ℕ) (avail : ℕ)
    → (avail == 0 || get_or s 0 0 == 0) ≡ false
    → sanitized_from (suc fuel) s avail
      ≡ value_text s avail
        ++ sanitized_from fuel (drop (value_step s avail) s) (avail - value_step s avail)
unfolding sanitized_from
sanitized_step fuel s avail go =
    rw go (elim (Bool-cases (utf8_seq_len s avail == 0)) [ inl e ↦ rw e | inr e ↦ rw e ])

escaped_from-Denotes :
    (fuel : ℕ) (s : List ℕ) (avail : ℕ)
    → Denotes (escaped_from fuel s avail) (sanitized_from fuel s avail)
unfolding escaped_from sanitized_from
escaped_from-Denotes zero s avail = done
escaped_from-Denotes (suc fuel) [] avail = elim (Bool-cases (avail == 0)) [
  | inl e ↦ rw e done
  | inr e ↦ rw e done
]
escaped_from-Denotes (suc fuel) (c ∷ t) avail = elim (Bool-cases (avail == 0 || c == 0)) [
  | inl stop ↦ rw stop done
  | inr go ↦
      let (av, nz) = ||-false (avail == 0) (c == 0) go in
      let (same, denotes) = piece-Fits c t avail (==→ne _ _ av) in
      rw (sanitized_step fuel (c ∷ t) avail go, go, ← same)
        (denotes _ _ (
          escaped_from-Denotes fuel (drop (str_piece (c ∷ t) avail).step (c ∷ t))
            (avail - (str_piece (c ∷ t) avail).step)))
]

-- The text that str appends is the content of a JSON string that stands for the first `max` bytes of
-- the source, up to a NUL, with each byte that starts no whole character replaced by U+FFFD.
pub escaped-Denotes : (s : List ℕ) (max : ℕ) → Denotes (escaped s max) (sanitized s max)
unfolding escaped sanitized
escaped-Denotes s max = escaped_from-Denotes (suc (length s)) s max

encode_pos : (cp : ℕ) → 0 < length (encode cp)
encode_pos cp = ground arith

first_ne :
    (cp : ℕ) (rest : List ℕ)
    → All (λ b. b ≢ 0) (encode cp ++ rest)
    → get_or (encode cp ++ rest) 0 0 ≢ 0
first_ne cp rest h = ground arith

sanitized_from_whole :
    (fuel : ℕ) {s : List ℕ} (avail : ℕ)
    → IsUtf8 s
    → All (λ b. b ≢ 0) s
    → length s ≤ avail
    → length s < fuel
    → sanitized_from fuel s avail ≡ s
unfolding sanitized_from
sanitized_from_whole zero avail u nz av f = elim f [ ]
sanitized_from_whole (suc fuel) avail end nz av f = ground arith
sanitized_from_whole (suc fuel) {s} avail (char cp {rest} scalar e u) nz av f =
    let size : length s ≡ length (encode cp) + length rest =
      omega (arith, ap length e, length-append (encode cp) rest) in
    let n : utf8_seq_len (encode cp ++ rest) avail ≡ length (encode cp) =
      utf8_seq_len-encode cp avail rest scalar (omega arith) in
    let n_pos : (length (encode cp) == 0) ≡ false = ground (arith, encode_pos cp) in
    let go : (avail == 0 || get_or (encode cp ++ rest) 0 0 == 0) ≡ false =
      ground (arith, encode_pos cp, first_ne cp rest (subst (All (λ b. b ≢ 0)) e nz)) in
    rw e (
      sanitized_step fuel (encode cp ++ rest) avail go
      ∙ rw (n, n_pos, take-append (encode cp) rest, drop-append (encode cp) rest)
          (ap (◌++◌ (encode cp)) (
            sanitized_from_whole fuel (avail - length (encode cp)) u
              (All-append_right (λ b. b ≢ 0) (encode cp) rest (subst (All (λ b. b ≢ 0)) e nz))
              (omega arith) (omega (arith, encode_pos cp)))))

-- A valid text with no NUL inside is kept as it is.
pub sanitized_whole :
    (s : List ℕ) (max : ℕ) → IsUtf8 s → All (λ b. b ≢ 0) s → length s ≤ max → sanitized s max ≡ s
unfolding sanitized
sanitized_whole s max u nz h = sanitized_from_whole (suc (length s)) max u nz h (omega arith)

-- On a valid writer, str appends a text, whole or cut at the end of the buffer; the text is the content
-- of a JSON string that stands for the first `max` bytes of the source, up to a NUL, with each byte
-- that starts no whole character replaced by U+FFFD.
pub str-Denotes :
    (w : JsonWriter) (s : List ℕ) (max : ℕ)
    → IsWriter w
    → (text : List ℕ) × Appends 0 w text (str w s max) × Denotes text (sanitized s max)
str-Denotes w s max v = (escaped s max, str-Appends w s max v, escaped-Denotes s max)

-- On a valid writer that is still ok after it, str of a valid UTF-8 text of at most `max` bytes with no
-- NUL inside has appended UTF-8 content that stands for exactly that text.
pub str_whole :
    (w : JsonWriter) (s : List ℕ) (max : ℕ)
    → IsWriter w
    → IsUtf8 s
    → All (λ b. b ≢ 0) s
    → length s ≤ max
    → (str w s max).ok ≡ true
    → (text : List ℕ) × (written (str w s max) ≡ written w ++ text) × IsUtf8 text × Denotes text s
str_whole w s max v u nz h o =
    let a = str-Appends w s max v in
    let d =
      subst (Denotes (escaped s max)) (sanitized_whole s max u nz h) (escaped-Denotes s max) in
    let size : (str w s max).pos - w.pos ≡ length (escaped s max) = omega (arith, (a.whole o).1) in
    (
      escaped s max,
      a.content ∙ rw (size, take_all (length (escaped s max)) (escaped s max) (omega arith)),
      Denotes-IsUtf8 d,
      d,
    )
