-- ===== src/Utf8/Sequence.antt =====
-- utf8_seq_len is the length of the character that stands first, and 0 where none does.
use zhac_mono_core.Prelude.{
  ℕ, zero, suc, ◌+◌, ◌-◌, ◌*◌, ◌≤◌, ◌<◌, ◌≡◌, refl, ◌≢◌, inl, inr, true, false, none, some, List,
  [], ◌∷◌, ◌++◌, arith, length, take, get_or, get_or_beyond, ltb, Bool-cases, Option-cases,
}
use zhac_mono_core.Utf8.Encoding.{IsScalar, encode}
use zhac_mono_core.Utf8.{Lead, lead, continues, utf8_seq_len}

-- A whole character that fits the readable bytes is recognised, whatever follows it.
pub utf8_seq_len-encode :
    (cp avail : ℕ) (rest : List ℕ)
    → IsScalar cp
    → length (encode cp) ≤ avail
    → utf8_seq_len (encode cp ++ rest) avail ≡ length (encode cp)
unfolding utf8_seq_len lead continues
utf8_seq_len-encode cp avail rest s h = ground arith

-- The code point of the first `n` bytes.
abbrev pub decode : ℕ → List ℕ → ℕ
decode (suc (suc zero)) (a ∷ b ∷ _) = (a - 0xC0) * 64 + (b - 0x80)
decode (suc (suc (suc zero))) (a ∷ b ∷ c ∷ _) = (a - 0xE0) * 4096 + (b - 0x80) * 64 + (c - 0x80)
decode (suc (suc (suc (suc zero)))) (a ∷ b ∷ c ∷ d ∷ _) =
    (a - 0xF0) * 262144 + (b - 0x80) * 4096 + (c - 0x80) * 64 + (d - 0x80)
decode _ (a ∷ _) = a
decode _ [] = 0

-- `n` bytes of `s`, of which `avail` are readable, are a whole character.
abbrev pub IsSequence : ℕ → ℕ → List ℕ → Type 0
IsSequence avail n s =
    IsScalar (decode n s)
    × (take n s ≡ encode (decode n s))
    × (n ≤ avail)
    × (n ≤ length s)
    × (0 < n)

lead_need : (c : ℕ) (l : Lead) → lead c ≡ some l → (1 ≤ l.need) × (l.need ≤ 3)
unfolding lead
lead_need c l e = ground arith

-- What the ladder admits, by the number of continuation bytes.
lead_two :
    (c : ℕ) (l : Lead)
    → lead c ≡ some l
    → l.need ≡ 1
    → (0xC2 ≤ c) × (c ≤ 0xDF) × (l.lo ≡ 0x80) × (l.hi ≡ 0xBF)
unfolding lead
lead_two c l e n = ground arith

lead_three :
    (c : ℕ) (l : Lead)
    → lead c ≡ some l
    → l.need ≡ 2
    → (0xE0 ≤ c)
      × (c ≤ 0xEF)
      × (0x80 ≤ l.lo)
      × (l.hi ≤ 0xBF)
      × (c ≡ 0xE0 → 0xA0 ≤ l.lo)
      × (c ≡ 0xED → l.hi ≤ 0x9F)
unfolding lead
lead_three c l e n = ground arith

lead_four :
    (c : ℕ) (l : Lead)
    → lead c ≡ some l
    → l.need ≡ 3
    → (0xF0 ≤ c)
      × (c ≤ 0xF4)
      × (0x80 ≤ l.lo)
      × (l.hi ≤ 0xBF)
      × (c ≡ 0xF0 → 0x90 ≤ l.lo)
      × (c ≡ 0xF4 → l.hi ≤ 0x8F)
unfolding lead
lead_four c l e n = ground arith

two :
    (c b : ℕ) (t : List ℕ) (l : Lead) (avail : ℕ)
    → l.need ≡ 1
    → 0xC2 ≤ c
    → c ≤ 0xDF
    → l.lo ≡ 0x80
    → l.hi ≡ 0xBF
    → 2 ≤ avail
    → continues (c ∷ b ∷ t) l 1 1 ≡ true
    → IsSequence avail 2 (c ∷ b ∷ t)
unfolding continues
two c b t l avail n c1 c2 lo hi av h = ground arith

three :
    (c b a : ℕ) (t : List ℕ) (l : Lead) (avail : ℕ)
    → 0xE0 ≤ c
    → c ≤ 0xEF
    → 0x80 ≤ l.lo
    → l.hi ≤ 0xBF
    → (c ≡ 0xE0 → 0xA0 ≤ l.lo)
    → (c ≡ 0xED → l.hi ≤ 0x9F)
    → 3 ≤ avail
    → continues (c ∷ b ∷ a ∷ t) l 1 2 ≡ true
    → IsSequence avail 3 (c ∷ b ∷ a ∷ t)
unfolding continues
three c b a t l avail c1 c2 lo hi e0 ed av h = ground arith

four :
    (c b a d : ℕ) (t : List ℕ) (l : Lead) (avail : ℕ)
    → 0xF0 ≤ c
    → c ≤ 0xF4
    → 0x80 ≤ l.lo
    → l.hi ≤ 0xBF
    → (c ≡ 0xF0 → 0x90 ≤ l.lo)
    → (c ≡ 0xF4 → l.hi ≤ 0x8F)
    → 4 ≤ avail
    → continues (c ∷ b ∷ a ∷ d ∷ t) l 1 3 ≡ true
    → IsSequence avail 4 (c ∷ b ∷ a ∷ d ∷ t)
unfolding continues
four c b a d t l avail c1 c2 lo hi e0 ed av h = ground arith

-- With fewer bytes than wanted the NUL that closes the string is read, and refused.
continues-length :
    (s : List ℕ) (l : Lead) (k rounds : ℕ)
    → 0x80 ≤ l.lo
    → continues s l k rounds ≡ true
    → 0 < rounds
    → k + rounds ≤ length s
unfolding continues
continues-length s l k zero lo h p = absurd (omega arith)
continues-length s l k (suc zero) lo h p = ground (arith, get_or_beyond s k 0)
continues-length s l k (suc (suc rounds)) lo h p =
    ground (arith, continues-length s l (suc k) (suc rounds) lo)

-- The three lengths at once.
by_need :
    (n c : ℕ) (t : List ℕ) (l : Lead) (avail : ℕ)
    → lead c ≡ some l
    → l.need ≡ n
    → n + 1 ≤ avail
    → n + 1 ≤ length (c ∷ t)
    → continues (c ∷ t) l 1 n ≡ true
    → IsSequence avail (n + 1) (c ∷ t)
by_need (suc zero) c (b ∷ t) l avail e same av len h =
    let (c1, c2, lo, hi) = lead_two c l e same in two c b t l avail same c1 c2 lo hi av h
by_need (suc (suc zero)) c (b ∷ a ∷ t) l avail e same av len h =
    let (c1, c2, lo, hi, first, last) = lead_three c l e same in
    three c b a t l avail c1 c2 lo hi first last av h
by_need (suc (suc (suc zero))) c (b ∷ a ∷ d ∷ t) l avail e same av len h =
    let (c1, c2, lo, hi, first, last) = lead_four c l e same in
    four c b a d t l avail c1 c2 lo hi first last av h
by_need n c t l avail e same av len h = absurd (omega (arith, lead_need c l e))

lead_lo : (c : ℕ) (l : Lead) → lead c ≡ some l → 0x80 ≤ l.lo
unfolding lead
lead_lo c l e = ground arith

seq_len_ascii :
    (s : List ℕ) (avail : ℕ)
    → utf8_seq_len s avail ≢ 0
    → ltb (get_or s 0 0) 0x80 ≡ true
    → (0 < avail) × (utf8_seq_len s avail ≡ 1)
unfolding utf8_seq_len
seq_len_ascii s avail h small = (ground arith, ground arith)

seq_len_none :
    (s : List ℕ) (avail : ℕ)
    → ltb (get_or s 0 0) 0x80 ≡ false
    → lead (get_or s 0 0) ≡ none
    → utf8_seq_len s avail ≡ 0
unfolding utf8_seq_len
seq_len_none s avail large e = ground arith

seq_len_lead :
    (s : List ℕ) (avail : ℕ) (l : Lead)
    → utf8_seq_len s avail ≢ 0
    → ltb (get_or s 0 0) 0x80 ≡ false
    → lead (get_or s 0 0) ≡ some l
    → (l.need + 1 ≤ avail) × (continues s l 1 l.need ≡ true) × (utf8_seq_len s avail ≡ l.need + 1)
unfolding utf8_seq_len
seq_len_lead s avail l h large e = (ground arith, ground arith, ground arith)

-- Where utf8_seq_len answers above 0, so many readable bytes stand there and are the encoding of one
-- scalar value.
pub utf8_seq_len-IsSequence :
    (c : ℕ) (t : List ℕ) (avail : ℕ)
    → utf8_seq_len (c ∷ t) avail ≢ 0
    → IsSequence avail (utf8_seq_len (c ∷ t) avail) (c ∷ t)
utf8_seq_len-IsSequence c t avail h = elim (Bool-cases (ltb c 0x80)) [
  | inl small ↦ let (av, one) = seq_len_ascii (c ∷ t) avail h small in rw one (ground arith)
  | inr large ↦ elim (Option-cases (lead c)) [
    | inl e ↦ absurd (h (seq_len_none (c ∷ t) avail large e))
    | inr (l, e) ↦
        let (av, more, len) = seq_len_lead (c ∷ t) avail l h large e in
        rw len (
          by_need l.need c t l avail e refl av
            (omega
              (arith, lead_need c l e, continues-length (c ∷ t) l 1 l.need (lead_lo c l e) more))
            more)
  ]
]
