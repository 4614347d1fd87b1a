-- ===== src/Devlist/Page/Pages.antt =====
-- main/ws_bridge.cpp, cmd_device_list_page: what a client gets that follows next_cursor.
use zhac_mono_core.Prelude.{
  ℕ, zero, suc, ◌+◌, ◌^◌, ◌≤◌, ◌<◌, ◌≡◌, refl, ◌∙◌, sym, ap, ◌⊎◌, inl, inr, Bool, true, false,
  Option, none, some, List, [], ◌∷◌, ◌++◌, map, arith, ◌==◌, length, get_elem?, All, Bool-cases,
  append-nil, length-append, subst,
}
use zhac_mono_core.Prelude.Text.{bytes, decimal, hex_fixed, hex_digit_upper}
use zhac_mono_core.Prelude.Hex.{hex_value-hex_digit_upper}
use zhac_mono_core.Prelude.Hex.Printed.{power16, strtoull16-hex_fixed, length-hex_fixed}
use zhac_mono_core.Devlist.Escape.Row.{ten_digits}
use zhac_mono_core.Devlist.Page.{
  Zap, IsZap, live, page_from, page_head, page_tail, page_text, cursor_text, parse_ieee,
}
use zhac_mono_core.Devlist.Page.Walk.{
  Walk, Exhausted, rows_text, above, above_mono, above_lt, above-le-length, IsPage,
  page_from-IsPage,
}

-- The cursor that a page carries is read back as the address it was made of.
pub parse_ieee-cursor_text : (last : ℕ) → last < 2 ^ 64 → parse_ieee (cursor_text last) ≡ last
unfolding parse_ieee power16
parse_ieee-cursor_text last h =
    strtoull16-hex_fixed hex_digit_upper hex_value-hex_digit_upper 16 last (omega arith) h

length-page_head : (id : ℕ) → id < 2 ^ 32 → length (page_head id) ≤ 64
length-page_head id h = omega (
  arith,
  length-append (decimal id) (bytes ",\"ok\":true,\"data\":{\"items\":["),
  ten_digits id h,
)

length-page_tail : (more : Bool) (last : ℕ) → length (page_tail more last) ≤ 40
length-page_tail true last = omega (
  arith,
  length-append (hex_fixed hex_digit_upper 16 last) (bytes "\"}}"),
  length-hex_fixed hex_digit_upper 16 last,
)
length-page_tail false last = omega arith

-- Every page is made, and has less than 8192 bytes.
pub page_text-length :
    (zap : Zap)
    → IsZap zap
    → (pool : List zap.Device) (id after : ℕ) → id < 2 ^ 32
    → (text : List ℕ) × (page_text zap pool id after ≡ some text) × (length text < 8192)
unfolding page_text
page_text-length zap law pool id after small =
    let ((out, more, last), run, page) = page_from-IsPage zap law pool (page_head id) true after in
    let room = page.small (omega (arith, length-page_head id small)) in
    (
      out ++ page_tail more last,
      rw (page_text, run) refl,
      omega (arith, length-append out (page_tail more last), length-page_tail more last),
    )

module _ (zap : Zap) (law : IsZap zap) (pool : List zap.Device) where
  Walk-le : (a : ℕ) (ds : List zap.Device) (b : ℕ) → Walk zap pool a ds b → a ≤ b
  Walk-le a [] b w = omega arith
  Walk-le a (d ∷ ds) b ((i, at_i, l, up, least), w) =
      omega (arith, Walk-le (zap.ieee_addr d) ds b w)

  Walk-append :
      (a b c : ℕ) (ds es : List zap.Device)
      → Walk zap pool a ds b
      → Walk zap pool b es c
      → Walk zap pool a (ds ++ es) c
  Walk-append a b c [] es e w = subst (λ (n : ℕ). Walk zap pool n es c) (sym e) w
  Walk-append a b c (d ∷ ds) es (f, w) v = (f, Walk-append (zap.ieee_addr d) b c ds es w v)

  Walk-small : (a b : ℕ) (ds : List zap.Device) → a < 2 ^ 64 → Walk zap pool a ds b → b < 2 ^ 64
  Walk-small a b [] h w = omega arith
  Walk-small a b (d ∷ ds) h (f, w) = Walk-small (zap.ieee_addr d) b ds (law.ieee_small d) w

  Walk-above :
      (a b : ℕ) (d : zap.Device) (ds : List zap.Device)
      → Walk zap pool a (d ∷ ds) b
      → above zap b pool < above zap a pool
  Walk-above a b d ds ((i, at_i, l, up, least), w) = omega (
    arith,
    above_lt zap a d pool i at_i l up,
    above_mono zap (zap.ieee_addr d) b pool (Walk-le (zap.ieee_addr d) ds b w),
  )

  sent-advances :
      (ds : List zap.Device) (head out : List ℕ) (a b : ℕ)
      → Walk zap pool a ds b
      → out ≡ head ++ rows_text zap true ds
      → length head < length out
      → above zap b pool < above zap a pool
  unfolding rows_text
  sent-advances [] head out a b w e h =
      let same : length out ≡ length head = ap length (e ∙ append-nil head) in absurd (omega arith)
  sent-advances (d ∷ ds) head out a b w e h = Walk-above a b d ds w

  -- A full page has sent a device.
  page-advances :
      (id a : ℕ) (r : List ℕ × Bool × ℕ)
      → id < 2 ^ 32
      → IsPage zap pool true (page_head id) a r
      → r.1 ≡ true
      → above zap r.2 pool < above zap a pool
  page-advances id a r small page more =
      sent-advances page.sent (page_head id) r.0 a r.2 page.walk page.text
        (omega (arith, length-page_head id small, (page.full more).1))

-- A client that asks for the page after `cursor`, and then for the page after each next_cursor: the items of every
-- page. none: a page was not made, or the fuel ran out.
pub follow : (zap : Zap) → List zap.Device → ℕ → ℕ → ℕ → Option (List (List ℕ))
follow zap pool id zero cursor = none
follow zap pool id (suc fuel) cursor =
    elim (page_from zap (length pool + 1) pool (page_head id) true cursor) [
      | none ↦ none
      | some (out, more, last) ↦ elim more [
        | false ↦ some (out ∷ [])
        | true ↦ elim (follow zap pool id fuel (parse_ieee (cursor_text last))) [
          | none ↦ none
          | some outs ↦ some (out ∷ outs)
        ]
      ]
    ]

-- The devices of all pages.
pub all_of {ℓ} : {A : Type ℓ} → List (List A) → List A
all_of [] = []
all_of (xs ∷ xss) = xs ++ all_of xss

abbrev pub items_text : (zap : Zap) → ℕ → List zap.Device → List ℕ
items_text zap id ds = page_head id ++ rows_text zap true ds

abbrev pub HasAddress : (zap : Zap) → ℕ → List zap.Device → Type 0
HasAddress zap v [] = ⊥
HasAddress zap v (d ∷ ds) = (zap.ieee_addr d ≡ v) ⊎ HasAddress zap v ds

All-get_elem? {ℓ κ} :
    {A : Type ℓ} (P : A → Type κ) (xs : List A) (i : ℕ) (x : A)
    → All P xs
    → get_elem? xs i ≡ some x
    → P x
All-get_elem? P [] i x h e = absurd (cc)
All-get_elem? P (y ∷ xs) zero x h e = let same : y ≡ x = cc in subst P same h.0
All-get_elem? P (y ∷ xs) (suc i) x h e = All-get_elem? P xs i x h.1 e

module _ (zap : Zap) (law : IsZap zap) (pool : List zap.Device) where
  Walk-HasAddress :
      (a b : ℕ) (ds : List zap.Device) (i : ℕ) (e : zap.Device)
      → Walk zap pool a ds b
      → Exhausted zap pool b
      → get_elem? pool i ≡ some e
      → live zap e ≡ true
      → a < zap.ieee_addr e
      → HasAddress zap (zap.ieee_addr e) ds
  Walk-HasAddress a b [] i e w over at_i l up = absurd (
      omega
        (arith, All-get_elem? (λ d. live zap d ≡ true → zap.ieee_addr d ≤ b) pool i e over at_i l))
  Walk-HasAddress a b (d ∷ ds) i e ((j, at_j, k, low, least), w) over at_i l up =
      let first =
        All-get_elem?
          (λ x. live zap x ≡ true → a < zap.ieee_addr x → zap.ieee_addr d ≤ zap.ieee_addr x) pool i
          e least at_i l up in
      elim (Bool-cases (zap.ieee_addr d == zap.ieee_addr e)) [
        | inl same ↦ inl (ground arith)
        | inr other ↦ inr (Walk-HasAddress (zap.ieee_addr d) b ds i e w over at_i l (ground arith))
      ]

  module _ (id : ℕ) (small : id < 2 ^ 32) where
    follow-next :
        (fuel cursor : ℕ)
        → cursor < 2 ^ 64
        → above zap cursor pool < fuel
        → (chunks : List (List zap.Device)) × (b : ℕ) × (follow zap pool id fuel cursor
            ≡ some (map (items_text zap id) chunks))
          × Walk zap pool cursor (all_of chunks) b
          × Exhausted zap pool b
    unfolding follow all_of rows_text
    follow-next zero cursor h f = absurd (omega arith)
    follow-next (suc fuel) cursor h f =
        let ((out, more, last), run, page) =
          page_from-IsPage zap law pool (page_head id) true cursor in
        elim (Bool-cases more) [
          | inr e ↦ (
            page.sent ∷ [],
            last,
            rw (follow, run, e, page.text) refl,
            rw (append-nil page.sent) page.walk,
            page.ends e,
          )
          | inl e ↦
              let back =
                parse_ieee-cursor_text last
                  (Walk-small zap law pool cursor last page.sent h page.walk) in
              let fewer : above zap last pool < above zap cursor pool =
                page-advances zap law pool id cursor (out, more, last) small page e in
              let (chunks, b, rest, walk, over) =
                follow-next fuel last (Walk-small zap law pool cursor last page.sent h page.walk)
                  (omega arith) in
              (
                page.sent ∷ chunks,
                b,
                rw (follow, run, e, back, rest, page.text) refl,
                Walk-append zap law pool cursor last b page.sent (all_of chunks) page.walk walk,
                over,
              )
        ]

    -- A client that follows next_cursor from a first cursor on comes to a last page, at most a page for each device
    -- and one more. The items of its pages are the rows of a run of live devices, in the order of their addresses
    -- with none between two of the run, and none is left above it.
    pub follow-Walk :
        (cursor : ℕ)
        → cursor < 2 ^ 64
        → (chunks : List (List zap.Device)) × (b : ℕ) × (follow zap pool id (length pool + 1) cursor
            ≡ some (map (items_text zap id) chunks))
          × Walk zap pool cursor (all_of chunks) b
          × Exhausted zap pool b
    follow-Walk cursor h =
        follow-next (length pool + 1) cursor h (omega (arith, above-le-length zap cursor pool))

    -- So every live device of an address above 0 has a row in the pages from the start on.
    pub follow-HasAddress :
        (i : ℕ) (e : zap.Device)
        → get_elem? pool i ≡ some e
        → live zap e ≡ true
        → 0 < zap.ieee_addr e
        → (chunks : List (List zap.Device)) × (follow zap pool id (length pool + 1) 0
            ≡ some (map (items_text zap id) chunks))
          × HasAddress zap (zap.ieee_addr e) (all_of chunks)
    follow-HasAddress i e at_i l up =
        let (chunks, b, run, walk, over) = follow-Walk 0 (omega arith) in
        (chunks, run, Walk-HasAddress 0 b (all_of chunks) i e walk over at_i l up)
