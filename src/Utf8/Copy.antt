-- ===== src/Utf8/Copy.antt =====
-- utf8_safe_copy cuts at a character boundary, and only where it has to.
use zhac_mono_core.Prelude.{
  ℕ, zero, suc, ◌+◌, ◌-◌, ◌≤◌, ◌<◌, ◌≡◌, refl, sym, ◌≢◌, ◌⊎◌, inl, inr, true, ◌||◌, some, List, [],
  ◌∷◌, ◌++◌, arith, length, take, drop, get_or, if_cases, ltb, ◌==◌, ||-cases, ||-false, ==_iff,
  ==→ne, length-append, length-take, length-drop, take-append-drop, append_assoc, ap, ◌∙◌, ltb→lt,
  ltb→le,
}
use native.Mathlib.Nat.{add-zero}
use zhac_mono_core.Utf8.Encoding.{IsUtf8, end, char}
use zhac_mono_core.Utf8.Sequence.{decode, utf8_seq_len-IsSequence}
use zhac_mono_core.Utf8.{utf8_seq_len, copy_from, utf8_safe_copy}

-- `out`, copied from `src` at offset `o` into a field with `room` bytes before the NUL: whole
-- characters that start the source, within the room, and nothing is left out that is a valid
-- character and fits.
pub record IsCopy (src : List ℕ) (room o : ℕ) (out : List ℕ) : Type 0 where
  pub tail : List ℕ
  pub split : src ≡ out ++ tail
  pub whole : IsUtf8 out
  pub fits : o + length out ≤ room
  pub stops :
      (get_or tail 0 0 ≡ 0)
      ⊎ (utf8_seq_len tail 4 ≡ 0)
      ⊎ (room < o + length out + utf8_seq_len tail 4)

stop :
    (src : List ℕ) (room o : ℕ)
    → o ≤ room
    → (get_or src 0 0 ≡ 0) ⊎ (utf8_seq_len src 4 ≡ 0) ⊎ (room < o + utf8_seq_len src 4)
    → IsCopy src room o []
stop src room o h why = record {
  tail = src;
  split = refl;
  whole = end;
  fits = omega arith;
  stops = rw add-zero why;
}

go_on :
    (c : ℕ) (t : List ℕ) (room o : ℕ) (out : List ℕ)
    → utf8_seq_len (c ∷ t) 4 ≢ 0
    → (let n = utf8_seq_len (c ∷ t) 4 in IsCopy (drop n (c ∷ t)) room (o + n) out)
    → IsCopy (c ∷ t) room o (take (utf8_seq_len (c ∷ t) 4) (c ∷ t) ++ out)
go_on c t room o out h r =
    let n = utf8_seq_len (c ∷ t) 4 in
    let (scalar, code, av, len, pos) = utf8_seq_len-IsSequence c t 4 h in
    let size : length (take n (c ∷ t) ++ out) ≡ n + length out =
      omega (arith, length-append (take n (c ∷ t)) out, length-take n (c ∷ t)) in
    let far : o + length (take n (c ∷ t) ++ out) ≡ o + n + length out = omega (arith, size) in
    record {
      tail = r.tail;
      split =
          sym (take-append-drop n (c ∷ t))
          ∙ ap (◌++◌ (take n (c ∷ t))) r.split
          ∙ sym (append_assoc (take n (c ∷ t)) out r.tail);
      whole = char (decode n (c ∷ t)) scalar (ap (λ (p : List ℕ). p ++ out) code) r.whole;
      fits = omega (arith, size, r.fits);
      stops = rw far r.stops;
    }

copy_from-IsCopy :
    (fuel : ℕ) (src : List ℕ) (room o : ℕ)
    → length src < fuel
    → o ≤ room
    → IsCopy src room o (copy_from fuel src room o)
unfolding copy_from
copy_from-IsCopy zero src room o f h = elim f [ ]
copy_from-IsCopy (suc fuel) [] room o f h = stop [] room o h (inl refl)
copy_from-IsCopy (suc fuel) (c ∷ t) room o f h =
    let n = utf8_seq_len (c ∷ t) 4 in
    if_cases (IsCopy (c ∷ t) room o) (c == 0) _ _
      (λ e. stop (c ∷ t) room o h (inl ((==_iff c 0).0 e)))
      λ _.
        if_cases (IsCopy (c ∷ t) room o) (n == 0 || ltb room (o + n)) _ _
          (λ e. stop (c ∷ t) room o h (cut (||-cases (n == 0) (ltb room (o + n)) e)))
          λ e.
            let (more, room_left) = ||-false (n == 0) (ltb room (o + n)) e in
            let positive : n ≢ 0 = ==→ne n 0 more in
            go_on c t room o _ positive (
              copy_from-IsCopy fuel (drop n (c ∷ t)) room (o + n) (shrinks positive)
                (ltb→le room (o + n) room_left))
  where
    cut :
        ((utf8_seq_len (c ∷ t) 4 == 0) ≡ true) ⊎ (ltb room (o + utf8_seq_len (c ∷ t) 4) ≡ true)
        → (get_or (c ∷ t) 0 0 ≡ 0)
          ⊎ (utf8_seq_len (c ∷ t) 4 ≡ 0)
          ⊎ (room < o + utf8_seq_len (c ∷ t) 4)
    cut (inl z) = inr (inl ((==_iff _ 0).0 z))
    cut (inr l) = inr (inr (ltb→lt _ _ l))

    shrinks : utf8_seq_len (c ∷ t) 4 ≢ 0 → length (drop (utf8_seq_len (c ∷ t) 4) (c ∷ t)) < fuel
    shrinks p =
        let (_, _, _, len, pos) = utf8_seq_len-IsSequence c t 4 p in
        omega (arith, length-drop (utf8_seq_len (c ∷ t) 4) (c ∷ t))

-- Into a field of `dstsz` bytes, above 0, utf8_safe_copy stores a string of whole characters that
-- starts the source and fits with its NUL; what it leaves out begins at the end of the source, at an
-- invalid sequence or at a character that does not fit.
pub utf8_safe_copy-IsCopy :
    (dstsz : ℕ) (src : List ℕ)
    → 0 < dstsz
    → (out : List ℕ) × (utf8_safe_copy dstsz (some src) ≡ some out) × IsCopy src (dstsz - 1) 0 out
unfolding utf8_safe_copy
utf8_safe_copy-IsCopy dstsz src h = (
  copy_from (suc (length src)) src (dstsz - 1) 0,
  ground arith,
  copy_from-IsCopy (suc (length src)) src (dstsz - 1) 0 (omega arith) (omega arith),
)
