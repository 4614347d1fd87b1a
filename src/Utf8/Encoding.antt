-- ===== src/Utf8/Encoding.antt =====
-- RFC 3629: scalar values, their encoding, and texts of whole characters.
use zhac_mono_core.Prelude.{
  ℕ, ◌+◌, ◌/◌, ◌%◌, ◌≤◌, ◌<◌, ◌≡◌, ◌⊎◌, inl, List, [], ◌∷◌, ◌++◌, ltb, if◌then◌else◌, arith,
  append_assoc, sym, ◌∙◌, ap, All, append-nil,
}

-- A code point that is no UTF-16 surrogate.
abbrev pub IsScalar : ℕ → Type 0
IsScalar cp = (cp < 0x110000) × ((cp < 0xD800) ⊎ (0xE000 ≤ cp))

abbrev pub encode : ℕ → List ℕ
encode cp =
    if ltb cp 0x80
    then cp ∷ []
    else if ltb cp 0x800
    then (0xC0 + cp / 64) ∷ (0x80 + cp % 64) ∷ []
    else if ltb cp 0x10000
    then (0xE0 + cp / 4096) ∷ (0x80 + cp / 64 % 64) ∷ (0x80 + cp % 64) ∷ []
    else (0xF0 + cp / 262144)
      ∷ (0x80 + cp / 4096 % 64)
      ∷ (0x80 + cp / 64 % 64)
      ∷ (0x80 + cp % 64)
      ∷ []

-- A sequence of whole characters.
pub data IsUtf8 : List ℕ → Type 0 where
  end : IsUtf8 []
  char :
      (cp : ℕ) {rest out : List ℕ}
      → IsScalar cp
      → out ≡ encode cp ++ rest
      → IsUtf8 rest
      → IsUtf8 out

pub IsUtf8-append : {xs ys : List ℕ} → IsUtf8 xs → IsUtf8 ys → IsUtf8 (xs ++ ys)
IsUtf8-append end k = k
IsUtf8-append {ys} (char cp {rest} s e h) k =
    char cp s (ap (λ (t : List ℕ). t ++ ys) e ∙ append_assoc (encode cp) rest ys)
      (IsUtf8-append h k)

pub ascii-IsUtf8 : (c : ℕ) → c < 0x80 → IsUtf8 (c ∷ [])
ascii-IsUtf8 c h = char c (omega arith, inl (omega arith)) (ground arith) end

pub encode-IsUtf8 : (cp : ℕ) → IsScalar cp → IsUtf8 (encode cp)
encode-IsUtf8 cp s = char cp s (sym (append-nil (encode cp))) end

pub encode_bytes : (cp : ℕ) → IsScalar cp → All (λ b. b < 256) (encode cp)
encode_bytes cp s = ground arith
