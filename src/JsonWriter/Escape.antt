-- ===== src/JsonWriter/Escape.antt =====
-- JsonWriter.str appends JSON string content that stands for the source, with every invalid UTF-8
-- byte replaced by U+FFFD.
use zhac_mono_core.Prelude.{
  ℕ, zero, suc, ◌-◌, ◌≡◌, sym, inl, inr, true, ◌||◌, List, [], ◌++◌, arith, length, drop, get_or,
  ◌==◌, if◌then◌else◌, Bool-cases, if_cases, ◌∙◌,
}
use zhac_mono_core.JsonWriter.Append.{
  IsWriter, Appends, put_all-Appends, idle-Appends, nil-Appends, Appends-trans,
}
use zhac_mono_core.JsonWriter.{JsonWriter, put_all, str_piece, str_from, str}

-- All that str puts, were there room.
unfoldable pub escaped_from : ℕ → List ℕ → ℕ → List ℕ
escaped_from zero s avail = []
escaped_from (suc fuel) s avail =
    let p = str_piece s avail in
    let more = p.text ++ escaped_from fuel (drop p.step s) (avail - p.step) in
    if avail == 0 || get_or s 0 0 == 0 then [] else more

str_from-Appends :
    (fuel : ℕ) (w : JsonWriter) (s : List ℕ) (avail : ℕ)
    → IsWriter w
    → w.ok ≡ true
    → Appends 0 w (escaped_from fuel s avail) (str_from fuel w s avail)
unfolding str_from escaped_from
str_from-Appends zero w s avail v o = nil-Appends w v
str_from-Appends (suc fuel) w s avail v o = elim (Bool-cases (avail == 0 || get_or s 0 0 == 0)) [
  | inl stop ↦ rw stop (nil-Appends w v)
  | inr go ↦
      let p = str_piece s avail in
      let (a, flag) = put_all-Appends w p.text v o in
      rw go (
        if_cases (Appends 0 w (p.text ++ escaped_from fuel (drop p.step s) (avail - p.step)))
          (put_all w p.text).1 _ _
          (λ fit. Appends-trans p.text _ v (omega arith) a (
            str_from-Appends fuel (put_all w p.text).0 (drop p.step s) (avail - p.step) a.valid
              (sym flag ∙ fit)))
          λ full.
            Appends-trans p.text _ v (omega arith) a (idle-Appends 0 _ _ a.valid (sym flag ∙ full)))
]

unfoldable pub escaped : List ℕ → ℕ → List ℕ
escaped s max = escaped_from (suc (length s)) s max

pub str-Appends :
    (w : JsonWriter) (s : List ℕ) (max : ℕ) → IsWriter w → Appends 0 w (escaped s max) (str w s max)
unfolding str escaped
str-Appends w s max v =
    if_cases (Appends 0 w (escaped s max)) w.ok _ _ (str_from-Appends (suc (length s)) w s max v)
      (idle-Appends 0 w (escaped s max) v)
