-- ===== src/JsonWriter/Append.antt =====
-- Every operation of the writer appends its text, whole or cut at the end of the buffer.
use zhac_mono_core.Prelude.{
  ℕ, suc, ◌+◌, ◌-◌, ◌≤◌, ◌<◌, ◌≡◌, refl, sym, ◌⊎◌, inl, inr, true, false, List, [], ◌∷◌, ◌++◌,
  arith, length, take, leb, Bool-cases, if_cases, leb→le, leb→lt, length-append, length-take,
  length-set, take_all, subst, append_assoc, ap, ◌∙◌,
}
use native.Mathlib.Numerals.{add-one}
use zhac_mono_core.JsonWriter.Memory.{
  take-set_end, take_nothing, take_more, take-append_whole, take-append_within, length-vsnprintf,
  vsnprintf_before, vsnprintf_whole,
}
use zhac_mono_core.JsonWriter.{JsonWriter, put, put_all, raw, ch, vsnprintf, fmt}

-- pos_ <= cap_, and the buffer has cap_ bytes.
pub record IsWriter (w : JsonWriter) : Type 0 where
  pub within : w.pos ≤ w.cap
  pub memory : length w.buf ≡ w.cap

-- The bytes written so far.
abbrev pub written : JsonWriter → List ℕ
written w = take w.pos w.buf

-- `w'` is `w` after `text` was appended: whole, or cut, and then the writer is no longer ok. `slack`
-- is what the operation wants beyond its text: 1 for the NUL of `fmt`.
pub record Appends (slack : ℕ) (w : JsonWriter) (text : List ℕ) (w' : JsonWriter) : Type 0 where
  pub valid : IsWriter w'
  pub same_cap : w'.cap ≡ w.cap
  pub grows : w.pos ≤ w'.pos
  pub content : written w' ≡ written w ++ take (w'.pos - w.pos) text
  pub whole : w'.ok ≡ true → (w.ok ≡ true) × (w'.pos ≡ w.pos + length text)
  pub cut : w'.ok ≡ false → (w.ok ≡ false) ⊎ (w.cap < w.pos + length text + slack)
  pub stuck : w.ok ≡ false → w' ≡ w

pub length-written : (w : JsonWriter) → IsWriter w → length (written w) ≡ w.pos
length-written w v = omega (arith, length-take w.pos w.buf, v.within, v.memory)

put_fits :
    (w : JsonWriter) (c : ℕ)
    → IsWriter w
    → w.pos < w.cap
    → (IsWriter (put w c).0)
      × ((put w c).0.cap ≡ w.cap)
      × ((put w c).0.pos ≡ suc w.pos)
      × ((put w c).0.ok ≡ w.ok)
      × (written (put w c).0 ≡ written w ++ c ∷ [])
      × ((put w c).1 ≡ true)
unfolding put
put_fits w c v h =
    let e : leb w.cap w.pos ≡ false = ground arith in
    rw e (
      record { within = omega arith; memory = length-set w.buf w.pos c ∙ v.memory },
      refl,
      omega arith,
      refl,
      rw add-one (take-set_end w.buf w.pos c (omega (arith, v.memory))),
      refl,
    )

put_full :
    (w : JsonWriter) (c : ℕ)
    → IsWriter w
    → w.cap ≤ w.pos
    → put w c ≡ (record w { ok = false }, false)
unfolding put
put_full w c v h = ground arith

-- With the writer ok, `put_all` appends, and its flag is the writer's.
pub put_all-Appends :
    (w : JsonWriter) (text : List ℕ)
    → IsWriter w
    → w.ok ≡ true
    → Appends 0 w text (put_all w text).0 × ((put_all w text).1 ≡ (put_all w text).0.ok)
unfolding put_all
put_all-Appends w [] v o = (
  record {
    valid = v;
    same_cap = refl;
    grows = omega arith;
    content = take_nothing (written w) [] w.pos;
    whole = λ _. (o, omega arith);
    cut = λ e. inl e;
    stuck = λ _. refl;
  },
  sym o,
)
put_all-Appends w (c ∷ s) v o = elim (Bool-cases (leb w.cap w.pos)) [
  | inl full ↦ rw (put_full w c v (leb→le _ _ full)) (
    record {
      valid = record { within = v.within; memory = v.memory };
      same_cap = refl;
      grows = omega arith;
      content = take_nothing (written w) (c ∷ s) w.pos;
      whole = λ e. cc;
      cut = λ _. inr (omega (arith, leb→le _ _ full));
      stuck = λ e. cc;
    },
    refl,
  )
  | inr free ↦
      let w1 : JsonWriter = (put w c).0 in
      let (v1, cap1, pos1, ok1, text1, fit) = put_fits w c v (leb→lt _ _ free) in
      let (h, flag) = put_all-Appends w1 s v1 (ok1 ∙ o) in
      rw fit (
        record {
          valid = h.valid;
          same_cap = h.same_cap ∙ cap1;
          grows = omega (arith, h.grows);
          content =
              rw (← take_more (written w) s c w.pos _ (rw pos1 at h.grows), ← text1, ← pos1)
                h.content;
          whole = λ e. (o, omega (arith, (h.whole e).1));
          cut = λ e. elim (h.cut e) [ inl f ↦ inl (sym ok1 ∙ f) | inr f ↦ inr (omega arith) ];
          stuck = λ e. cc;
        },
        flag,
      )
]

-- A writer that is no longer ok is left alone.
pub idle-Appends :
    (slack : ℕ) (w : JsonWriter) (text : List ℕ)
    → IsWriter w
    → w.ok ≡ false
    → Appends slack w text w
idle-Appends slack w text v o = record {
  valid = v;
  same_cap = refl;
  grows = omega arith;
  content = take_nothing (written w) text w.pos;
  whole = λ e. cc;
  cut = λ e. inl e;
  stuck = λ _. refl;
}

pub raw-Appends : (w : JsonWriter) (text : List ℕ) → IsWriter w → Appends 0 w text (raw w text)
unfolding raw
raw-Appends w text v =
    if_cases (Appends 0 w text) w.ok _ _ (λ o. (put_all-Appends w text v o).0)
      (idle-Appends 0 w text v)

-- Appending nothing.
pub nil-Appends : (w : JsonWriter) → IsWriter w → Appends 0 w [] w
nil-Appends w v = record {
  valid = v;
  same_cap = refl;
  grows = omega arith;
  content = take_nothing (written w) [] w.pos;
  whole = λ e. (e, omega arith);
  cut = λ e. inl e;
  stuck = λ _. refl;
}

put_all-one : (w : JsonWriter) (c : ℕ) → (put_all w (c ∷ [])).0 ≡ (put w c).0
unfolding put_all
put_all-one w c = elim (Bool-cases (put w c).1) [ inl e ↦ rw e | inr e ↦ rw e ]

pub ch-Appends : (w : JsonWriter) (c : ℕ) → IsWriter w → Appends 0 w (c ∷ []) (ch w c)
unfolding ch
ch-Appends w c v =
    if_cases (Appends 0 w (c ∷ [])) w.ok _ _
      (λ o. subst (Appends 0 w (c ∷ [])) (put_all-one w c) (put_all-Appends w (c ∷ []) v o).0)
      (idle-Appends 0 w (c ∷ []) v)

fmt_fits :
    (w : JsonWriter) (text : List ℕ)
    → IsWriter w
    → w.ok ≡ true
    → leb (w.cap - w.pos) (length text) ≡ false
    → Appends 1 w text
        (record w { buf = vsnprintf w.buf w.pos (w.cap - w.pos) text; pos = w.pos + length text })
fmt_fits w text v o h =
    let room : length text < w.cap - w.pos = leb→lt _ _ h in
    let e : w.pos + length text - w.pos ≡ length text = omega arith in
    record {
      valid = record {
        within = omega (arith, v.within);
        memory = length-vsnprintf w.buf w.pos (w.cap - w.pos) text ∙ v.memory;
      };
      same_cap = refl;
      grows = omega arith;
      content =
          rw (e, take_all (length text) text (omega arith))
            (vsnprintf_whole w.buf w.pos (w.cap - w.pos) text room
              (omega (arith, v.within, v.memory)));
      whole = λ _. (o, refl);
      cut = λ e. inl e;
      stuck = λ e. cc;
    }

fmt_overflows :
    (w : JsonWriter) (text : List ℕ)
    → IsWriter w
    → w.ok ≡ true
    → leb (w.cap - w.pos) (length text) ≡ true
    → Appends 1 w text (record w { buf = vsnprintf w.buf w.pos (w.cap - w.pos) text; ok = false })
fmt_overflows w text v o h = record {
  valid = record {
    within = v.within;
    memory = length-vsnprintf w.buf w.pos (w.cap - w.pos) text ∙ v.memory;
  };
  same_cap = refl;
  grows = omega arith;
  content = vsnprintf_before w.buf w.pos (w.cap - w.pos) text ∙ take_nothing (written w) text w.pos;
  whole = λ e. cc;
  cut = λ _. inr (omega (arith, leb→le _ _ h, v.within));
  stuck = λ e. cc;
}

pub fmt-Appends : (w : JsonWriter) (text : List ℕ) → IsWriter w → Appends 1 w text (fmt w text)
unfolding fmt
fmt-Appends w text v =
    if_cases (Appends 1 w text) w.ok _ _
      (λ o.
        if_cases (Appends 1 w text) (leb (w.cap - w.pos) (length text)) _ _
          (fmt_overflows w text v o) (fmt_fits w text v o))
      (idle-Appends 1 w text v)

-- An append writes at most its text.
pub Appends-le :
    {n : ℕ} {w w' : JsonWriter} (s : List ℕ)
    → IsWriter w
    → Appends n w s w'
    → w'.pos - w.pos ≤ length s
Appends-le {w} {w'} s v a = omega (
  arith,
  ap length a.content,
  length-append (written w) (take (w'.pos - w.pos) s),
  length-take (w'.pos - w.pos) s,
  length-written w v,
  length-written w' a.valid,
)

-- Two appends in a row append both texts, provided the second text covers what the first one wants
-- beyond its own.
module _ {m n : ℕ} {w w1 w2 : JsonWriter} (s t : List ℕ) where
  content_trans :
      IsWriter w
      → Appends m w s w1
      → Appends n w1 t w2
      → written w2 ≡ written w ++ take (w2.pos - w.pos) (s ++ t)
  content_trans v a b = elim (Bool-cases w1.ok) [
    | inl o ↦
        let e : w2.pos - w.pos ≡ length s + (w2.pos - w1.pos) =
          omega (arith, (a.whole o).1, b.grows) in
        let f : w1.pos - w.pos ≡ length s = omega (arith, (a.whole o).1) in
        rw (e, take-append_whole s t (w2.pos - w1.pos))
          (b.content
            ∙ ap (λ (xs : List ℕ). xs ++ take (w2.pos - w1.pos) t)
                (rw (f, take_all (length s) s (omega arith)) at a.content)
            ∙ append_assoc (written w) s (take (w2.pos - w1.pos) t))
    | inr o ↦ rw (b.stuck o, take-append_within s t (w1.pos - w.pos) (Appends-le s v a)) a.content
  ]

  pub Appends-trans :
      IsWriter w → m ≤ length t + n → Appends m w s w1 → Appends n w1 t w2 → Appends n w (s ++ t) w2
  Appends-trans v h a b = record {
    valid = b.valid;
    same_cap = b.same_cap ∙ a.same_cap;
    grows = omega (arith, a.grows, b.grows);
    content = content_trans v a b;
    whole = λ e. (
      (a.whole (b.whole e).0).0,
      omega (arith, (a.whole (b.whole e).0).1, (b.whole e).1, length-append s t),
    );
    cut = λ e. elim (Bool-cases w1.ok) [
      | inl o ↦ elim (b.cut e) [
        | inl f ↦ cc
        | inr f ↦ inr (omega (arith, (a.whole o).1, a.same_cap, length-append s t))
      ]
      | inr o ↦ elim (a.cut o) [ inl f ↦ inl f | inr f ↦ inr (omega (arith, length-append s t)) ]
    ];
    stuck = λ e. b.stuck (rw (a.stuck e) e) ∙ a.stuck e;
  }
