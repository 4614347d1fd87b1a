-- ===== src/Groups/Api/Kept.antt =====
-- main/api_groups.cpp: what group.create and group.update answer is what group.get answers afterwards.
use zhac_mono_core.Prelude.{
  ℕ, ◌≡◌, refl, ◌∙◌, sym, inl, inr, true, Option, none, some, List, [], ◌∷◌, arith, Bool-cases,
  Option-cases, ltb, if◌then◌else◌, ◌==◌,
}
use zhac_mono_core.Document.{Json, JsonLib, member, as_text, is_null, as_array, uint_or}
use zhac_mono_core.Groups.Storage.{Nvs, IsNvs, readonly, GrpRecord}
use zhac_mono_core.Groups.{grp_find, grp_save, grp_create, grp_next_id}
use zhac_mono_core.Groups.Create.{grp_find-save}
use zhac_mono_core.Groups.Api.{
  put_member, put_members, parse_members, parse_body, edited, row_of, group_get, group_update,
  group_create, named_group,
}

put_member-id : (r : GrpRecord) (obj : Json) → (put_member r obj).id ≡ r.id
unfolding put_member
put_member-id r obj = elim (Option-cases (as_text (member obj "ieee"))) [
  | inl e ↦ rw (put_member, e) refl
  | inr (s, e) ↦ rw (put_member, e) refl
]

put_members-id : (objs : List Json) (r : GrpRecord) → (put_members r objs).id ≡ r.id
unfolding put_members
put_members-id [] r = refl
put_members-id (obj ∷ objs) r = elim (Bool-cases (ltb r.member_count 16)) [
  | inl e ↦ rw e (put_members-id objs (put_member r obj) ∙ put_member-id r obj)
  | inr e ↦ rw e refl
]

parse_members-id :
    (lib : JsonLib) (body : List ℕ) (r : GrpRecord) → (parse_members lib body r).id ≡ r.id
unfolding parse_members
parse_members-id lib body r = elim (Option-cases (lib.deserialize body)) [
  | inl e ↦ rw (parse_members, e) refl
  | inr (doc, e) ↦ rw (parse_members, e) (put_members-id (as_array (member doc "members")) _)
]

edited-id :
    (lib : JsonLib) (body : List ℕ) (doc : Json) (r : GrpRecord) → (edited lib body doc r).id ≡ r.id
unfolding edited
edited-id lib body doc r = elim (Bool-cases (is_null (member doc "name"))) [
  | inl e ↦ elim (Bool-cases (is_null (member doc "members"))) [
    | inl f ↦ rw (e, f) refl
    | inr f ↦ rw (e, f) (parse_members-id lib body _)
  ]
  | inr e ↦ elim (Bool-cases (is_null (member doc "members"))) [
    | inl f ↦ rw (e, f) refl
    | inr f ↦ rw (e, f) (parse_members-id lib body _)
  ]
]

found-id :
    (nvs : Nvs) (s : nvs.State) (id : ℕ) (r : GrpRecord) → grp_find nvs s id ≡ some r → r.id ≡ id
unfolding grp_find
found-id nvs s id r h = ground arith

module _ (nvs : Nvs) (law : IsNvs nvs) (lib : JsonLib) (s t : nvs.State) (body query : List ℕ)
    (cap : ℕ) {doc doc' : Json} {answer : List ℕ} (parsed : parse_body lib body ≡ some doc)
    (asked : parse_body lib query ≡ some doc') (opens : nvs.nvs_open t readonly ≡ true) where
  answered :
      (r : GrpRecord)
      → uint_or 16 (member doc' "id") 0 ≡ r.id
      → ◌≡◌ {A = nvs.State × Option (List ℕ)}
          ((grp_save nvs s r).0, if (grp_save nvs s r).1 then some (row_of r cap) else none)
          (t, some answer)
      → group_get nvs lib t query cap ≡ some answer
  unfolding group_get
  answered r same h = elim (Bool-cases (grp_save nvs s r).1) [
    | inr f ↦ absurd (ground arith)
    | inl f ↦
        let moved : (grp_save nvs s r).0 ≡ t = ground arith in
        let row : row_of r cap ≡ answer = ground arith in
        let found : grp_find nvs t r.id ≡ some r =
          rw (← moved) (grp_find-save nvs law s r f (rw moved opens)) in
        rw (group_get, asked, same, found, row) refl
  ]

  -- A group whose group.update was answered is answered with the same text when it is asked for by the same id, in a
  -- buffer of the same size.
  pub group_get-update :
      uint_or 16 (member doc' "id") 0 ≡ uint_or 16 (member doc "id") 0
      → group_update nvs lib s body cap ≡ (t, some answer)
      → group_get nvs lib t query cap ≡ some answer
  unfolding group_update
  group_get-update same h =
      let id = uint_or 16 (member doc "id") 0 in
      elim (Option-cases (grp_find nvs s id)) [
        | inl e ↦
            let bad : ◌≡◌ {A = nvs.State × Option (List ℕ)} (s, none) (t, some answer) =
              rw (group_update, parsed, e) at h in
            absurd (cc)
        | inr (r, e) ↦
            answered (edited lib body doc r)
              (same ∙ sym (found-id nvs s id r e) ∙ sym (edited-id lib body doc r))
              (rw (group_update, parsed, e) at h)
      ]

  -- Likewise for group.create, asked for by the id that the store gives next.
  pub group_get-create :
      uint_or 16 (member doc' "id") 0 ≡ grp_next_id nvs s
      → group_create nvs lib s body cap ≡ (t, some answer)
      → group_get nvs lib t query cap ≡ some answer
  unfolding grp_create group_create
  group_get-create same h =
      let r = parse_members lib body (named_group doc) in
      let made : GrpRecord = record r { id = grp_next_id nvs s } in
      let made_as = rw (group_create, parsed) at h in
      elim (Bool-cases (grp_next_id nvs s == 0)) [
        | inl z ↦ absurd (ground arith)
        | inr z ↦ answered made same (ground arith)
      ]
