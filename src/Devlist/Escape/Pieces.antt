-- ===== src/Devlist/Escape/Pieces.antt =====
-- main/devlist_page.h: where json_escape cuts, and that a row fits.
use zhac_mono_core.Prelude.{
  ℕ, zero, suc, ◌+◌, ◌≤◌, ◌<◌, ◌≡◌, sym, ◌∙◌, inl, inr, List, [], ◌∷◌, ◌++◌, leb, length, drop,
  length-append, length-drop, append-nil, append_assoc, Bool-cases, arith,
}
use zhac_mono_core.Devlist.Escape.{esc_piece, escape_from, json_escape}

-- The texts of the first `k` pieces of a source, and what is left of it behind them.
unfoldable pub texts : ℕ → List ℕ → List ℕ
texts zero s = []
texts (suc k) [] = []
texts (suc k) (c ∷ s) = (esc_piece c s).text ++ texts k (drop (esc_piece c s).step (c ∷ s))

unfoldable pub left : ℕ → List ℕ → List ℕ
left zero s = s
left (suc k) [] = []
left (suc k) (c ∷ s) = left k (drop (esc_piece c s).step (c ∷ s))

-- The piece at the front does not fit behind `used` bytes.
unfoldable pub Stopped : ℕ → ℕ → List ℕ → Type 0
Stopped cap used [] = Unit
Stopped cap used (c ∷ s) = cap ≤ used + length (esc_piece c s).text

step_pos : (c : ℕ) (s : List ℕ) → 0 < (esc_piece c s).step
unfolding esc_piece
step_pos c s = ground arith

escaped_from :
    (rounds cap : ℕ) (s dst : List ℕ)
    → length s ≤ rounds
    → length dst < cap
    → (k : ℕ) × (escape_from rounds cap s dst ≡ dst ++ texts k s)
      × (length (escape_from rounds cap s dst) < cap)
      × Stopped cap (length (escape_from rounds cap s dst)) (left k s)
unfolding escape_from texts left Stopped
escaped_from zero cap [] dst h l = (0, sym (append-nil dst), l, tt)
escaped_from zero cap (c ∷ s) dst h l = absurd (omega arith)
escaped_from (suc rounds) cap [] dst h l = (0, sym (append-nil dst), l, tt)
escaped_from (suc rounds) cap (c ∷ s) dst h l =
    let piece = esc_piece c s in
    elim (Bool-cases (leb cap (length dst + length piece.text))) [
      | inl e ↦ rw (escape_from, e) (0, sym (append-nil dst), l, ground arith)
      | inr e ↦
          let (k, same, small, stop) =
            escaped_from rounds cap (drop piece.step (c ∷ s)) (dst ++ piece.text)
              (omega (arith, length-drop piece.step (c ∷ s), step_pos c s))
              (ground (arith, length-append dst piece.text)) in
          rw (escape_from, e)
            (
              suc k,
              same ∙ append_assoc dst piece.text (texts k (drop piece.step (c ∷ s))),
              small,
              stop,
            )
    ]

-- Into a buffer of `cap` bytes, above 0, json_escape writes the pieces of the source in order, each an escape or a
-- whole character with its continuation bytes, up to the first that does not fit with the NUL.
pub json_escape-pieces :
    (src : List ℕ) (cap : ℕ)
    → 0 < cap
    → (k : ℕ) × (json_escape src cap ≡ texts k src)
      × (length (json_escape src cap) < cap)
      × Stopped cap (length (json_escape src cap)) (left k src)
unfolding json_escape
json_escape-pieces src cap h = escaped_from (length src) cap src [] (omega arith) h
