-- ===== src/LogRing/Body/Whole.antt =====
-- main/log_ring.cpp: the body is the whole text or nothing.
use zhac_mono_core.Prelude.{
  ℕ, sym, default, ◌+◌, ◌≤◌, ◌<◌, ◌≡◌, refl, ◌∙◌, ap, inl, inr, false, some, List, [], ◌∷◌, ◌++◌,
  leb, length, length-append, append-nil, append_assoc, Bool-cases, Option-cases, arith,
}
use zhac_mono_core.Prelude.Text.{bytes}
use zhac_mono_core.LogRing.{escaped}
use zhac_mono_core.LogRing.Body.{emit_escaped, body_head, body_msg, body_end, build_body_json}

-- A text with every byte as `escaped` writes it.
unfoldable pub escaped_all : List ℕ → List ℕ
escaped_all [] = []
escaped_all (c ∷ s) = escaped c ++ escaped_all s

unfoldable pub body_text : ℕ → List ℕ → List ℕ → List ℕ → List ℕ
body_text ts src tag msg =
    (((body_head ts src ++ escaped_all tag) ++ bytes "\",\"msg\":\"") ++ escaped_all msg)
    ++ bytes "\"}"

emitted : (cap : ℕ) (out s r : List ℕ) → emit_escaped cap out s ≡ some r → r ≡ out ++ escaped_all s
unfolding emit_escaped escaped_all
emitted cap out [] r h = ap (λ o. default o r) (sym h) ∙ sym (append-nil out)
emitted cap out (c ∷ s) r h = elim (Bool-cases (leb cap (length out + 6))) [
  | inl e ↦ absurd (let k = rw (emit_escaped, e) at h in ground arith)
  | inr e ↦
      let k = rw (emit_escaped, e) at h in
      emitted cap (out ++ escaped c) s r k ∙ append_assoc out (escaped c) (escaped_all s)
]

pub escaped-length : (c : ℕ) → 0 < length (escaped c)
unfolding escaped
escaped-length c = ground arith

emits :
    (cap : ℕ) (out s : List ℕ)
    → length out + length (escaped_all s) + 6 ≤ cap
    → emit_escaped cap out s ≡ some (out ++ escaped_all s)
unfolding emit_escaped escaped_all
emits cap out [] h = ap some (sym (append-nil out))
emits cap out (c ∷ s) h =
    let n : length (escaped c ++ escaped_all s) ≡ length (escaped c) + length (escaped_all s) =
      length-append (escaped c) (escaped_all s) in
    let room : leb cap (length out + 6) ≡ false = ground (arith, escaped-length c) in
    rw (emit_escaped, room)
      (emits cap (out ++ escaped c) s (omega (arith, length-append out (escaped c)))
        ∙ ap some (append_assoc out (escaped c) (escaped_all s)))

-- A body that build_body_json makes is the whole text, with room for its NUL.
pub build_body_json-text :
    (cap ts : ℕ) (src tag msg body : List ℕ)
    → build_body_json cap ts src tag msg ≡ some body
    → (body ≡ body_text ts src tag msg) × (length body < cap)
unfolding build_body_json body_msg body_end body_text
build_body_json-text cap ts src tag msg body h =
    let head = body_head ts src in
    let small : leb cap (length head) ≡ false = ground arith in
    elim (Option-cases (emit_escaped cap head tag)) [
      | inl e ↦ absurd (let k = rw (small, e) at h in ground arith)
      | inr (one, e) ↦
          let sep = one ++ bytes "\",\"msg\":\"" in
          elim (Option-cases (emit_escaped cap sep msg)) [
            | inl g ↦ absurd (let k = rw (small, e) at h in ground arith)
            | inr (two, g) ↦
                let k = rw (small, e) at h in
                let inner : leb cap (length one + 10) ≡ false = ground arith in
                let k2 = rw (inner, g) at k in
                let last : leb cap (length two + 3) ≡ false = ground arith in
                let whole = rw last at k2 in
                let same : two ++ bytes "\"}" ≡ body = ap (λ o. default o body) whole in
                (
                  sym same
                      ∙ ap (λ x. x ++ bytes "\"}")
                          (emitted cap sep msg two g
                            ∙ ap (λ x. (x ++ bytes "\",\"msg\":\"") ++ escaped_all msg)
                                (emitted cap head tag one e)),
                  rw⁻¹ same (ground (arith, length-append two (bytes "\"}"))),
                )
          ]
    ]

-- build_body_json makes the whole text wherever four bytes more than the text fit the buffer.
pub build_body_json-fits :
    (cap ts : ℕ) (src tag msg : List ℕ)
    → length (body_text ts src tag msg) + 4 ≤ cap
    → build_body_json cap ts src tag msg ≡ some (body_text ts src tag msg)
unfolding build_body_json body_msg body_end body_text
build_body_json-fits cap ts src tag msg h =
    let head = body_head ts src in
    let one = head ++ escaped_all tag in
    let sep = one ++ bytes "\",\"msg\":\"" in
    let two = sep ++ escaped_all msg in
    let n1 = length-append head (escaped_all tag) in
    let n2 : length sep ≡ length one + 9 = length-append one (bytes "\",\"msg\":\"") in
    let n3 = length-append sep (escaped_all msg) in
    let n4 : length (two ++ bytes "\"}") ≡ length two + 2 = length-append two (bytes "\"}") in
    let a : leb cap (length head) ≡ false = ground arith in
    let b : leb cap (length one + 10) ≡ false = ground arith in
    let c : leb cap (length two + 3) ≡ false = ground arith in
    rw (a, emits cap head tag (omega arith)) (rw (b, emits cap sep msg (omega arith)) (rw c refl))
