-- ===== src/Groups/Api/Members.antt =====
-- main/api_groups.cpp: the member array that a request carries, and the command sent to every member.
use zhac_mono_core.Prelude.{
  ℕ, zero, suc, ◌+◌, ◌-◌, ◌≤◌, ◌<◌, ◌≡◌, refl, ◌∙◌, sym, ap, inl, inr, Bool, true, false, Option,
  none, some, List, [], ◌∷◌, ◌++◌, arith, length, length-set, length-take, append_assoc, append-nil,
  take, drop, get_or, set, ltb, Bool-cases, default, Option-cases,
}
use native.Mathlib.Numerals.{add-one}
use zhac_mono_core.Document.{Json, JsonLib, member, as_text, as_array, as_int, wrap, pos}
use zhac_mono_core.Groups.Storage.{GrpMember, GrpRecord}
use zhac_mono_core.Groups.{no_member}
use zhac_mono_core.Groups.Api.{
  parse_ieee, put_member, put_members, parse_members, Commands, send_from,
}

-- The member that an element describes: none where it has no "ieee" text.
pub described : Json → Option GrpMember
described obj = elim (as_text (member obj "ieee")) [
  | none ↦ none
  | some ieee ↦
      some (record {
        ieee = parse_ieee ieee;
        ep = wrap 8 (default (as_int (member obj "ep")) (pos 1));
      })
]

pub all_described : List Json → List GrpMember
all_described [] = []
all_described (obj ∷ objs) = elim (described obj) [
  | none ↦ all_described objs
  | some m ↦ m ∷ all_described objs
]

-- The members that count.
pub listed : GrpRecord → List GrpMember
listed r = take r.member_count r.members

take-set_end {ℓ} :
    {A : Type ℓ} (xs : List A) (n : ℕ) (v : A)
    → n < length xs
    → take (suc n) (set xs n v) ≡ take n xs ++ v ∷ []
take-set_end [] n v h = absurd (omega arith)
take-set_end (x ∷ xs) zero v h = refl
take-set_end (x ∷ xs) (suc n) v h = ap (λ t. x ∷ t) (take-set_end xs n v (omega arith))

take_nil {ℓ} : {A : Type ℓ} (n : ℕ) → take {A = A} n [] ≡ []
take_nil zero = refl
take_nil (suc n) = refl

take_none {ℓ} : {A : Type ℓ} (n : ℕ) (xs : List A) → n ≡ 0 → take n xs ≡ []
take_none n xs e = rw e refl

put_members-from :
    (objs : List Json) (r : GrpRecord)
    → length r.members ≡ 16
    → r.member_count ≤ 16
    → listed (put_members r objs) ≡ listed r ++ take (16 - r.member_count) (all_described objs)
unfolding put_members listed all_described put_member described
put_members-from [] r n c =
    rw (take_nil (16 - r.member_count)) (sym (append-nil (take r.member_count r.members)))
put_members-from (obj ∷ objs) r n c = elim (Bool-cases (ltb r.member_count 16)) [
  | inr full ↦
      rw (full, take_none (16 - r.member_count) (all_described (obj ∷ objs)) (ground arith))
        (sym (append-nil (take r.member_count r.members)))
  | inl room ↦ elim (Option-cases (as_text (member obj "ieee"))) [
    | inl e ↦
        let skip : put_member r obj ≡ r = rw (put_member, e) refl in
        let nothing : described obj ≡ none = rw (described, e) refl in
        rw (room, skip, all_described, nothing) (put_members-from objs r n c)
    | inr (s, e) ↦
        let m : GrpMember = record {
          ieee = parse_ieee s;
          ep = wrap 8 (default (as_int (member obj "ep")) (pos 1));
        } in
        let grown : GrpRecord = record r {
          members = set r.members r.member_count m;
          member_count = r.member_count + 1;
        } in
        let put : put_member r obj ≡ grown = rw (put_member, e) refl in
        let found : described obj ≡ some m = rw (described, e) refl in
        let rest =
          put_members-from objs grown (length-set r.members r.member_count m ∙ n) (ground arith) in
        let more : 16 - r.member_count ≡ suc (16 - (r.member_count + 1)) = ground arith in
        let end_of : take (suc r.member_count) (set r.members r.member_count m)
            ≡ listed r ++ m ∷ [] =
          take-set_end r.members r.member_count m (ground arith) in
        rw (room, put, all_described, found, more)
          (rest ∙ rw (add-one, end_of) (append_assoc (listed r) (m ∷ []) _))
  ]
]

-- The members read from a request are the first sixteen elements that have an "ieee" text, in order, whatever the
-- record held before.
pub parse_members-described :
    (lib : JsonLib) (body : List ℕ) (r : GrpRecord) {doc : Json}
    → length r.members ≡ 16
    → lib.deserialize body ≡ some doc
    → listed (parse_members lib body r) ≡ take 16 (all_described (as_array (member doc "members")))
unfolding parse_members listed
parse_members-described lib body r {doc} n parsed =
    rw (parse_members, parsed)
      (put_members-from (as_array (member doc "members")) (record r { member_count = 0 }) n
        (omega arith))

module _ (cmds : Commands) (key : List ℕ) (val : cmds.Value) where
  -- The members commanded one after the other, and whether each succeeded.
  pub outcomes : List GrpMember → cmds.State → cmds.State × List Bool
  outcomes [] s = (s, [])
  outcomes (m ∷ ms) s =
      let done = cmds.set_attr s m.ieee m.ep key val in
      let rest = outcomes ms done.0 in (rest.0, done.1 ∷ rest.1)

pub successes : List Bool → ℕ
successes [] = 0
successes (true ∷ bs) = suc (successes bs)
successes (false ∷ bs) = successes bs

pub failures : List Bool → ℕ
failures [] = 0
failures (true ∷ bs) = failures bs
failures (false ∷ bs) = suc (failures bs)

successes-failures : (bs : List Bool) → successes bs + failures bs ≡ length bs
unfolding successes failures
successes-failures [] = omega arith
successes-failures (true ∷ bs) = omega (arith, successes-failures bs)
successes-failures (false ∷ bs) = omega (arith, successes-failures bs)

drop-get_or {ℓ} :
    {A : Type ℓ} (xs : List A) (i : ℕ) (d : A)
    → i < length xs
    → drop i xs ≡ get_or xs i d ∷ drop (suc i) xs
drop-get_or [] i d h = absurd (omega arith)
drop-get_or (x ∷ xs) zero d h = refl
drop-get_or (x ∷ xs) (suc i) d h = drop-get_or xs i d (omega arith)

take-length {ℓ} : {A : Type ℓ} (xs : List A) (n : ℕ) → n ≤ length xs → length (take n xs) ≡ n
take-length xs n h = omega (arith, length-take n xs)

module _ (cmds : Commands) (key : List ℕ) (val : cmds.Value) where
  length-outcomes :
      (ms : List GrpMember) (s : cmds.State) → length (outcomes cmds key val ms s).1 ≡ length ms
  unfolding outcomes
  length-outcomes [] s = refl
  length-outcomes (m ∷ ms) s = ap suc (length-outcomes ms (cmds.set_attr s m.ieee m.ep key val).0)

  send_from-next :
      (ms : List GrpMember) (n i : ℕ) (s : cmds.State) (sent failed : ℕ)
      → i + n ≤ length ms
      → send_from cmds ms n i key val s sent failed ≡ (
        (outcomes cmds key val (take n (drop i ms)) s).0,
        sent + successes (outcomes cmds key val (take n (drop i ms)) s).1,
        failed + failures (outcomes cmds key val (take n (drop i ms)) s).1,
      )
  unfolding send_from outcomes successes failures
  send_from-next ms zero i s sent failed h = ground arith
  send_from-next ms (suc n) i s sent failed h =
      let m = get_or ms i no_member in
      let done = cmds.set_attr s m.ieee m.ep key val in
      let here : drop i ms ≡ m ∷ drop (i + 1) ms =
        drop-get_or ms i no_member (omega arith) ∙ rw (add-one) refl in
      rw here (elim (Bool-cases done.1) [
        | inl e ↦
            rw e (send_from-next ms n (i + 1) done.0 (sent + 1) failed (omega arith) ∙ ground arith)
        | inr e ↦
            rw e (send_from-next ms n (i + 1) done.0 sent (failed + 1) (omega arith) ∙ ground arith)
      ])

  -- The loop over the first `n` of a record's members commands each of them once, in order, and counts those that
  -- succeeded and those that failed, `n` together.
  pub send_from-outcomes :
      (ms : List GrpMember) (n : ℕ) (s : cmds.State)
      → n ≤ length ms
      → (send_from cmds ms n 0 key val s 0 0 ≡ (
        (outcomes cmds key val (take n ms) s).0,
        successes (outcomes cmds key val (take n ms) s).1,
        failures (outcomes cmds key val (take n ms) s).1,
      ))
        × (successes (outcomes cmds key val (take n ms) s).1
              + failures (outcomes cmds key val (take n ms) s).1
            ≡ n)
  send_from-outcomes ms n s h =
      let oks = (outcomes cmds key val (take n ms) s).1 in
      (
        send_from-next ms n 0 s 0 0 (omega arith) ∙ ground arith,
        omega (arith, successes-failures oks, length-outcomes (take n ms) s, take-length ms n h),
      )
