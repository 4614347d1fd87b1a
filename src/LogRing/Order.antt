-- ===== src/LogRing/Order.antt =====
-- main/log_ring.cpp: the ring holds the latest lines, oldest first.
use zhac_mono_core.Prelude.{
  ℕ, zero, suc, ◌+◌, ◌-◌, ◌%◌, ◌≤◌, ◌<◌, ◌≡◌, refl, ◌≢◌, ◌∙◌, ap, ◌⊎◌, inl, inr, true, false, List,
  [], ◌∷◌, ◌++◌, if◌then◌else◌, ltb, ◌==◌, length, get_or, set, drop, length-set, get_or-set_self,
  get_or-set_ne, arith, length-append, length-drop, append-nil, append_assoc, sym, Bool-cases,
}
use zhac_mono_core.LogRing.{LogEntry, no_entry, Ring, empty_ring, push, walk, entries}

-- The ring has 128 slots, and while it is not full the next slot is the one after the entries.
unfoldable pub IsRing : Ring → Type 0
IsRing r =
    (length r.slots ≡ 128) × (r.head < 128) × (r.count ≤ 128) × (r.count < 128 → r.head ≡ r.count)

pub push-IsRing : (r : Ring) (e : LogEntry) → IsRing r → IsRing (push r e)
unfolding IsRing push
push-IsRing r e (l, h, c, f) =
    (rw (length-set r.slots r.head e) l, omega arith, ground arith, λ k. ground arith)

-- The abstract log: the newest at the end, at most 128.
unfoldable pub append_last : List LogEntry → LogEntry → List LogEntry
append_last xs e = if ltb (length xs) 128 then xs ++ e ∷ [] else drop 1 xs ++ e ∷ []

walk_last :
    (n i start : ℕ) (slots : List LogEntry)
    → walk (suc n) i start slots
      ≡ walk n i start slots ++ get_or slots ((start + (i + n)) % 128) no_entry ∷ []
unfolding walk
walk_last zero i start slots = let s : i + 0 ≡ i = omega arith in rw s refl
walk_last (suc n) i start slots =
    let s : suc i + n ≡ i + suc n = omega arith in
    let rest = walk_last n (suc i) start slots in
    ap (λ xs. get_or slots ((start + i) % 128) no_entry ∷ xs) (rw s at rest)

-- A write to a slot that the walk does not visit.
walk-set :
    (n i start : ℕ) (slots : List LogEntry) (j : ℕ) (e : LogEntry)
    → ((k : ℕ) → i ≤ k → k < i + n → j ≢ (start + k) % 128)
    → walk n i start (set slots j e) ≡ walk n i start slots
unfolding walk
walk-set zero i start slots j e h = refl
walk-set (suc n) i start slots j e h =
    rw
      (
        get_or-set_ne slots j ((start + i) % 128) e no_entry (h i (omega arith) (omega arith)),
        walk-set n (suc i) start slots j e (λ k lo hi. h k (omega arith) (omega arith)),
      )
      refl

-- The same slots from another start.
walk_shift :
    (n i start j begin : ℕ) (slots : List LogEntry)
    → ((k : ℕ) → (start + (i + k)) % 128 ≡ (begin + (j + k)) % 128)
    → walk n i start slots ≡ walk n j begin slots
unfolding walk
walk_shift zero i start j begin slots h = refl
walk_shift (suc n) i start j begin slots h =
    let here : (start + i) % 128 ≡ (begin + j) % 128 = omega (arith, h 0) in
    rw (here, walk_shift n (suc i) start (suc j) begin slots (λ k. omega (arith, h (suc k)))) refl

pub length-walk : (n i start : ℕ) (slots : List LogEntry) → length (walk n i start slots) ≡ n
unfolding walk
length-walk zero i start slots = refl
length-walk (suc n) i start slots = ap suc (length-walk n (suc i) start slots)

growing :
    (r : Ring) (e : LogEntry)
    → IsRing r
    → r.count < 128
    → entries (push r e) ≡ walk r.count 0 0 r.slots ++ e ∷ []
unfolding IsRing push entries
growing r e (l, h, c, f) small =
    let at_end : r.head ≡ r.count = f small in
    let more : (if ltb r.count 128 then r.count + 1 else r.count) ≡ suc r.count = ground arith in
    let start : (if suc r.count == 128 then (r.head + 1) % 128 else 0) ≡ 0 = ground arith in
    let new : get_or (set r.slots r.head e) ((0 + (0 + r.count)) % 128) no_entry ≡ e =
      let i : (0 + (0 + r.count)) % 128 ≡ r.head = omega arith in
      rw i (get_or-set_self r.slots r.head e no_entry (omega arith)) in
    rw (more, start, walk_last r.count 0 0 (set r.slots r.head e), new)
      (ap (λ xs. xs ++ e ∷ [])
        (walk-set r.count 0 0 r.slots r.head e (λ k lo hi q. absurd (omega arith))))

drop-walk :
    (n i start : ℕ) (slots : List LogEntry)
    → drop 1 (walk (suc n) i start slots) ≡ walk n (suc i) start slots
unfolding walk
drop-walk n i start slots = refl

turning :
    (r : Ring) (e : LogEntry)
    → IsRing r
    → r.count ≡ 128
    → entries (push r e) ≡ drop 1 (walk 128 0 r.head r.slots) ++ e ∷ []
unfolding IsRing push entries
turning r e (l, h, c, f) full =
    let start = (r.head + 1) % 128 in
    let new : get_or (set r.slots r.head e) ((start + (0 + 127)) % 128) no_entry ≡ e =
      let i : (start + (0 + 127)) % 128 ≡ r.head = omega arith in
      rw i (get_or-set_self r.slots r.head e no_entry (omega arith)) in
    let kept : walk 127 0 start (set r.slots r.head e) ≡ walk 127 1 r.head r.slots =
      walk-set 127 0 start r.slots r.head e (λ k lo hi q. absurd (omega arith))
      ∙ walk_shift 127 0 start 1 r.head r.slots (λ k. omega arith) in
    let more : (if ltb r.count 128 then r.count + 1 else r.count) ≡ 128 = ground arith in
    rw
      (
        more,
        walk_last 127 0 start (set r.slots r.head e),
        new,
        kept,
        drop-walk 127 0 r.head r.slots,
      )
      refl

-- A push into the ring appends the entry to the log and, when 128 entries are kept, drops the oldest.
pub entries-push :
    (r : Ring) (e : LogEntry) → IsRing r → entries (push r e) ≡ append_last (entries r) e
unfolding append_last IsRing entries
entries-push r e (l, h, c, f) =
    let ring : IsRing r = (l, h, c, f) in
    let now : (r.count < 128) ⊎ (r.count ≡ 128) = omega arith in
    elim now [
      | inl small ↦
          let old : entries r ≡ walk r.count 0 0 r.slots =
            let q : (r.count == 128) ≡ false = ground arith in simp q in
          let fits : ltb (length (walk r.count 0 0 r.slots)) 128 ≡ true =
            rw (length-walk r.count 0 0 r.slots) (ground arith) in
          rw (old, fits) (growing r e ring small)
      | inr full ↦
          let old : entries r ≡ walk 128 0 r.head r.slots = rw full refl in
          let over : ltb (length (walk 128 0 r.head r.slots)) 128 ≡ false =
            rw (length-walk 128 0 r.head r.slots) refl in
          rw (old, over) (turning r e ring full)
    ]

unfoldable pub push_all : Ring → List LogEntry → Ring
push_all r [] = r
push_all r (e ∷ es) = push_all (push r e) es

drop_one :
    (n : ℕ) (xs ys : List LogEntry)
    → 0 < length xs
    → drop n (drop 1 xs ++ ys) ≡ drop (suc n) (xs ++ ys)
drop_one n [] ys h = absurd (omega arith)
drop_one n (x ∷ xs) ys h = refl

length-entries : (r : Ring) → length (entries r) ≡ r.count
unfolding entries
length-entries r = length-walk r.count 0 _ r.slots

full_case :
    (r : Ring) (e : LogEntry) (es : List LogEntry)
    → IsRing r
    → 128 ≤ length (entries r)
    → entries (push r e) ≡ drop 1 (entries r) ++ e ∷ []
    → entries (push_all (push r e) es)
      ≡ drop (length (entries (push r e) ++ es) - 128) (entries (push r e) ++ es)
    → entries (push_all (push r e) es)
      ≡ drop (length (entries r ++ e ∷ es) - 128) (entries r ++ e ∷ es)
unfolding IsRing
full_case r e es (l, h, c, f) full next rest =
    let xs = entries r in
    let shape : entries (push r e) ++ es ≡ drop 1 xs ++ e ∷ es =
      rw next (append_assoc (drop 1 xs) (e ∷ []) es) in
    let few : length (drop 1 xs ++ e ∷ es) - 128 ≡ length es =
      omega (arith, length-append (drop 1 xs) (e ∷ es), length-drop 1 xs, length-entries r) in
    let all : length (xs ++ e ∷ es) - 128 ≡ suc (length es) =
      omega (arith, length-append xs (e ∷ es), length-entries r) in
    rw all ((rw (shape, few) at rest) ∙ drop_one (length es) xs (e ∷ es) (omega arith))

pushed :
    (r : Ring) (es : List LogEntry)
    → IsRing r
    → entries (push_all r es) ≡ drop (length (entries r ++ es) - 128) (entries r ++ es)
unfolding push_all append_last IsRing
pushed r [] (l, h, c, f) =
    let n : length (entries r ++ []) - 128 ≡ 0 =
      omega (arith, length-append (entries r) [], length-entries r) in
    rw n (sym (append-nil (entries r)))
pushed r (e ∷ es) ring =
    let rest = pushed (push r e) es (push-IsRing r e ring) in
    let step = entries-push r e ring in
    elim (Bool-cases (ltb (length (entries r)) 128)) [
      | inl small ↦
          let more : entries (push r e) ≡ entries r ++ e ∷ [] = step ∙ simp small in
          let shape : entries (push r e) ++ es ≡ entries r ++ e ∷ es =
            rw more (append_assoc (entries r) (e ∷ []) es) in
          rw shape at rest
      | inr full ↦ full_case r e es ring (ground arith) (step ∙ simp full) rest
    ]

pub empty_ring-IsRing : IsRing empty_ring
unfolding IsRing
empty_ring-IsRing = (refl, omega arith, omega arith, λ k. refl)

-- After any run of lines, the ring that started empty lists the last 128 of them, oldest first.
pub push_all-entries :
    (es : List LogEntry) → entries (push_all empty_ring es) ≡ drop (length es - 128) es
unfolding entries walk
push_all-entries es = pushed empty_ring es empty_ring-IsRing
