-- ===== src/Groups/Row.antt =====
-- grp_to_json writes the whole row, or nothing that counts.
use zhac_mono_core.Prelude.{
  ℕ, zero, suc, ◌+◌, ◌-◌, ◌≤◌, ◌<◌, ◌≡◌, refl, ◌⊎◌, inl, inr, Bool, true, false, List, [], ◌∷◌,
  ◌++◌, arith, length, length-append, append_assoc, take, take_all, get_or, set, ltb, ◌==◌,
  if◌then◌else◌, Bool-cases, ◌∙◌, subst, min,
}
use zhac_mono_core.Prelude.Text.{bytes}
use zhac_mono_core.JsonWriter.{JsonWriter, open_writer, raw, ch, fmt, finish}
use zhac_mono_core.JsonWriter.Append.{
  IsWriter, Appends, Appends-trans, written, raw-Appends, ch-Appends, fmt-Appends, nil-Appends,
}
use zhac_mono_core.JsonWriter.Memory.{take-set_before}
use zhac_mono_core.JsonWriter.Escape.{escaped, str-Appends}
use zhac_mono_core.Groups.Storage.{GrpMember, GrpRecord, grp_max_members}
use zhac_mono_core.Groups.{member_text, no_member, members_loop, head_text, row_writer, grp_to_json}

-- The members from index `i` on, a comma before each but the first.
unfoldable pub members_text : List GrpMember → ℕ → ℕ → List ℕ
members_text members i zero = []
members_text members i (suc rounds) =
    (if i == 0 then [] else b',' ∷ [])
    ++ (member_text (get_or members i no_member) ++ members_text members (i + 1) rounds)

-- The rest of the row after the members' opening bracket.
unfoldable pub rest_text : List GrpMember → ℕ → ℕ → List ℕ
rest_text members i rounds = members_text members i rounds ++ bytes "]}"

rest_pos : (members : List GrpMember) (i rounds : ℕ) → 1 ≤ length (rest_text members i rounds)
unfolding rest_text
rest_pos members i rounds =
    omega (arith, length-append (members_text members i rounds) (bytes "]}"))

abbrev comma : ℕ → List ℕ
comma i = if i == 0 then [] else b',' ∷ []

rest_text_step :
    (members : List GrpMember) (i rounds : ℕ)
    → comma i ++ (member_text (get_or members i no_member) ++ rest_text members (i + 1) rounds)
      ≡ rest_text members i (suc rounds)
unfolding rest_text members_text
rest_text_step members i rounds = simp append_assoc

comma-Appends :
    (w : JsonWriter) (i : ℕ) → IsWriter w → Appends 0 w (comma i) (if i == 0 then w else ch w b',')
comma-Appends w i v = elim (Bool-cases (i == 0)) [
  | inl e ↦ rw e (nil-Appends w v)
  | inr e ↦ rw e (ch-Appends w b',' v)
]

members_loop-Appends :
    (w : JsonWriter) (members : List GrpMember) (i rounds : ℕ)
    → IsWriter w
    → Appends 0 w (rest_text members i rounds) (raw (members_loop w members i rounds) (bytes "]}"))
unfolding members_loop
members_loop-Appends w members i zero v =
    unfold members_text rest_text in raw-Appends w (bytes "]}") v
members_loop-Appends w members i (suc rounds) v =
    let m = member_text (get_or members i no_member) in
    let rest = rest_text members (i + 1) rounds in
    let a = comma-Appends w i v in
    let b = fmt-Appends (if i == 0 then w else ch w b',') m a.valid in
    let c =
      members_loop-Appends (fmt (if i == 0 then w else ch w b',') m) members (i + 1) rounds
        b.valid in
    subst (λ t. Appends 0 w t (raw (members_loop w members i (suc rounds)) (bytes "]}")))
      (rest_text_step members i rounds)
      (Appends-trans (comma i) (m ++ rest) v (omega arith) a
        (Appends-trans m rest a.valid (omega (arith, rest_pos members (i + 1) rounds)) b c))

-- The row of a group: what grp_to_json is to write.
unfoldable pub row_text : GrpRecord → List ℕ
row_text r =
    head_text r.id
    ++ (escaped r.name 32
        ++ (bytes "\",\"members\":[" ++ rest_text r.members 0 (min r.member_count grp_max_members)))

row_writer-Appends :
    (r : GrpRecord) (buf : List ℕ) (cap : ℕ)
    → length buf ≡ cap
    → Appends 0 (open_writer buf cap) (row_text r) (row_writer r buf cap)
unfolding row_writer row_text open_writer
row_writer-Appends r buf cap h =
    let w0 : JsonWriter = record { buf = buf; cap = cap; pos = 0; ok = true } in
    let v : IsWriter w0 = record { within = omega arith; memory = h } in
    let opening = bytes "\",\"members\":[" in
    let count : (if ltb grp_max_members r.member_count then grp_max_members else r.member_count)
        ≡ min r.member_count grp_max_members =
      ground arith in
    let a = fmt-Appends w0 (head_text r.id) v in
    let b = str-Appends (fmt w0 (head_text r.id)) r.name 32 a.valid in
    let c = raw-Appends _ opening b.valid in
    let d = members_loop-Appends _ r.members 0 (min r.member_count grp_max_members) c.valid in
    rw count (
      Appends-trans (head_text r.id) _ v
        (omega (
          arith,
          length-append (escaped r.name 32)
              (opening ++ rest_text r.members 0 (min r.member_count grp_max_members)),
        ))
        a
        (Appends-trans (escaped r.name 32) _ a.valid (omega arith) b
          (Appends-trans opening _ b.valid (omega arith) c d)))

-- What a finished writer that began empty holds.
finished :
    (text buf : List ℕ) (cap : ℕ) (w : JsonWriter)
    → Appends 0 (open_writer buf cap) text w
    → ((w.ok ≡ true) × (length text ≤ cap) × (w.pos ≡ length text) × (written w ≡ text))
      ⊎ ((w.ok ≡ false) × (cap < length text))
unfolding open_writer
finished text buf cap w a = elim (Bool-cases w.ok) [
  | inl o ↦
      let e : w.pos ≡ length text = omega (arith, (a.whole o).1) in
      let f : w.pos - 0 ≡ length text = omega arith in
      inl (
        o,
        omega (arith, a.valid.within, a.same_cap),
        e,
        a.content ∙ rw (f, take_all (length text) text (omega arith)),
      )
  | inr o ↦ elim (a.cut o) [ inl f ↦ absurd (cc) | inr f ↦ inr (o, omega arith) ]
]

-- The closing NUL stands behind the text.
terminated :
    (buf : List ℕ) (n m : ℕ) (b : Bool)
    → m ≡ n
    → take n (if b then set buf m 0 else buf) ≡ take n buf
terminated buf n m true e = take-set_before buf n m 0 (omega arith)
terminated buf n m false e = refl

-- Into a buffer of `cap` bytes grp_to_json writes the row and returns its length if the row has at
-- most `cap` bytes, and else it returns 0.
pub grp_to_json-row :
    (r : GrpRecord) (buf : List ℕ) (cap : ℕ)
    → length buf ≡ cap
    → ((length (row_text r) ≤ cap)
        × ((grp_to_json r buf cap).0 ≡ length (row_text r))
        × (take (length (row_text r)) (grp_to_json r buf cap).1 ≡ row_text r))
      ⊎ ((cap < length (row_text r)) × ((grp_to_json r buf cap).0 ≡ 0))
unfolding grp_to_json finish
grp_to_json-row r buf cap h =
    elim (finished (row_text r) buf cap (row_writer r buf cap) (row_writer-Appends r buf cap h)) [
      | inl (o, fits, pos, text) ↦ inl (
        fits,
        rw o pos,
        terminated (row_writer r buf cap).buf (length (row_text r)) (finish (row_writer r buf cap))
              (ltb (finish (row_writer r buf cap)) cap) (rw o pos)
            ∙ subst (λ (n : ℕ). take n (row_writer r buf cap).buf ≡ row_text r) pos text,
      )
      | inr (o, over) ↦ inr (over, rw o)
    ]
