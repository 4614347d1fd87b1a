-- ===== src/Json.antt =====
-- What the content of a JSON string (RFC 8259, section 7, in UTF-8) stands for, as the devices that
-- read the replies take it.
use zhac_mono_core.Prelude.{ℕ, ◌+◌, ◌*◌, ◌≤◌, ◌<◌, ◌≡◌, ◌≢◌, ◌⊎◌, List, [], ◌∷◌, ◌++◌, arith}
use zhac_mono_core.Utf8.Encoding.{IsScalar, encode, IsUtf8, end, char, ascii-IsUtf8, IsUtf8-append}

-- The letter of a two-character escape and the byte that it stands for.
pub data ShortEscape : ℕ → ℕ → Type 0 where
  quote : {e c : ℕ} → e ≡ b'"' → c ≡ b'"' → ShortEscape e c
  backslash : {e c : ℕ} → e ≡ b'\\' → c ≡ b'\\' → ShortEscape e c
  newline : {e c : ℕ} → e ≡ b'n' → c ≡ 10 → ShortEscape e c
  return : {e c : ℕ} → e ≡ b'r' → c ≡ 13 → ShortEscape e c
  tab : {e c : ℕ} → e ≡ b't' → c ≡ 9 → ShortEscape e c
  slash : {e c : ℕ} → e ≡ b'/' → c ≡ b'/' → ShortEscape e c
  backspace : {e c : ℕ} → e ≡ b'b' → c ≡ 8 → ShortEscape e c
  form_feed : {e c : ℕ} → e ≡ b'f' → c ≡ 12 → ShortEscape e c

-- The hex digit `h` has the value `v`.
abbrev pub HexDigit : ℕ → ℕ → Type 0
HexDigit h v =
    (v < 16)
    × (((v < 10) × (h ≡ b'0' + v))
        ⊎ ((10 ≤ v) × (h + 10 ≡ b'a' + v))
        ⊎ ((10 ≤ v) × (h + 10 ≡ b'A' + v)))

abbrev pub IsPlain : ℕ → Type 0
IsPlain cp = IsScalar cp × (0x20 ≤ cp) × (cp ≢ b'"') × (cp ≢ b'\\')

-- The content `out` stands for the text `value`.
pub data Denotes : List ℕ → List ℕ → Type 0 where
  done : Denotes [] []
  plain :
      (cp : ℕ) {rest v out value : List ℕ}
      → IsPlain cp
      → out ≡ encode cp ++ rest
      → value ≡ encode cp ++ v
      → Denotes rest v
      → Denotes out value
  short :
      {e c : ℕ} {rest v out value : List ℕ}
      → ShortEscape e c
      → out ≡ b'\\' ∷ e ∷ rest
      → value ≡ c ∷ v
      → Denotes rest v
      → Denotes out value
  unicode :
      (a b c d : ℕ) {ha hb hc hd : ℕ} {rest v out value : List ℕ}
      → HexDigit ha a
      → HexDigit hb b
      → HexDigit hc c
      → HexDigit hd d
      → IsScalar (a * 4096 + b * 256 + c * 16 + d)
      → out ≡ b'\\' ∷ b'u' ∷ ha ∷ hb ∷ hc ∷ hd ∷ rest
      → value ≡ encode (a * 4096 + b * 256 + c * 16 + d) ++ v
      → Denotes rest v
      → Denotes out value

-- Such content is UTF-8 whatever text it stands for.
short-lt : {e c : ℕ} → ShortEscape e c → e < 0x80
short-lt (quote p q) = omega arith
short-lt (backslash p q) = omega arith
short-lt (newline p q) = omega arith
short-lt (return p q) = omega arith
short-lt (tab p q) = omega arith
short-lt (slash p q) = omega arith
short-lt (backspace p q) = omega arith
short-lt (form_feed p q) = omega arith

ascii_cons : (c : ℕ) {rest : List ℕ} → c < 0x80 → IsUtf8 rest → IsUtf8 (c ∷ rest)
ascii_cons c h r = IsUtf8-append (ascii-IsUtf8 c h) r

pub Denotes-IsUtf8 : {out value : List ℕ} → Denotes out value → IsUtf8 out
Denotes-IsUtf8 done = end
Denotes-IsUtf8 (plain cp p e f h) = char cp p.0 e (Denotes-IsUtf8 h)
Denotes-IsUtf8 (short {e = l} {rest} s e f h) =
    rw e (ascii_cons b'\\' (omega arith) (ascii_cons l (short-lt s) (Denotes-IsUtf8 h)))
Denotes-IsUtf8 (unicode a b c d {ha} {hb} {hc} {hd} {rest} pa pb pc pd s e f h) = rw e (
    ascii_cons b'\\' (omega arith) (
      ascii_cons b'u' (omega arith) (
        ascii_cons ha (omega arith) (
          ascii_cons hb (omega arith)
            (ascii_cons hc (omega arith) (ascii_cons hd (omega arith) (Denotes-IsUtf8 h)))))))
