-- ===== src/Groups/Create.antt =====
-- grp_create takes a slot that was free; finding what was saved; a save whose bitmap write fails.
use zhac_mono_core.Prelude.{
  ℕ, ◌+◌, ◌-◌, ◌≤◌, ◌<◌, ◌≡◌, refl, ◌≢◌, inl, inr, true, false, ◌||◌, none, some, arith, ltb, ◌==◌,
  ==_iff, ◌∙◌, subst,
}
use zhac_mono_core.Prelude.Bits.{test_bit}
use zhac_mono_core.Groups.Storage.{Nvs, IsNvs, readonly, readwrite, GrpRecord}
use zhac_mono_core.Groups.{
  bmp_key, grp_key, clamp, grp_get_bmp, save_bitmap, grp_save, grp_create, grp_find, grp_next_id,
}
use zhac_mono_core.Groups.FirstFree.{grp_next_id-IsFirstFree}
use zhac_mono_core.Groups.Table.{slot, slot_empty}
use zhac_mono_core.Groups.Writes.{save_ok, save_bitmap_blob, set_blob_bmp}
use zhac_mono_core.Groups.Refines.{grp_save-slot}

module _ (nvs : Nvs) (law : IsNvs nvs) where
  create_ok :
      (s : nvs.State) (r : GrpRecord)
      → (grp_create nvs s r).1 ≡ true
      → (grp_next_id nvs s ≢ 0)
        × ((grp_create nvs s r).2 ≡ record r { id = grp_next_id nvs s })
        × ((grp_save nvs s (record r { id = grp_next_id nvs s })).1 ≡ true)
        × ((grp_create nvs s r).0 ≡ (grp_save nvs s (record r { id = grp_next_id nvs s })).0)
  unfolding grp_create
  create_ok s r h = (ground arith, ground arith, ground arith, ground arith)

  -- With the namespace open and bitmap writes that succeed, a create that succeeds puts the record, its
  -- count clamped, into the lowest free slot, under the id of that slot, and leaves the other slots
  -- alone.
  pub grp_create-slot :
      (s : nvs.State) (r : GrpRecord)
      → nvs.nvs_open s readonly ≡ true
      → ((t : nvs.State) (v : ℕ) → (nvs.set_u32 t bmp_key v).1 ≡ true)
      → (grp_create nvs s r).1 ≡ true
      → (k : ℕ) × (k < 32)
        × ((grp_create nvs s r).2 ≡ record r { id = k + 1 })
        × (test_bit (grp_get_bmp nvs s) k ≡ false)
        × ((j : ℕ) → j < k → test_bit (grp_get_bmp nvs s) j ≡ true)
        × (slot nvs s k ≡ none)
        × (slot nvs (grp_create nvs s r).0 k ≡ some (clamp (record r { id = k + 1 })))
        × ((i : ℕ) → i < 32 → i ≢ k → slot nvs (grp_create nvs s r).0 i ≡ slot nvs s i)
  grp_create-slot s r opens sure h =
      let (pos, made, saved, after) = create_ok s r h in
      elim (grp_next_id-IsFirstFree nvs s opens) [
        | inl (z, all) ↦ absurd (pos z)
        | inr (k, e, lo, hi, free, all) ↦
            let r' : GrpRecord = record r { id = k + 1 } in
            let saved' : (grp_save nvs s r').1 ≡ true =
              subst (λ (n : ℕ). (grp_save nvs s (record r { id = n })).1 ≡ true) e saved in
            let (here, others) = grp_save-slot nvs law s r' sure saved' in
            let back : k + 1 - 1 ≡ k = omega arith in
            (
              k,
              hi,
              rw e at made,
              free,
              λ j l. all j (omega arith) l,
              slot_empty nvs s k free,
              rw (after, e) (rw back at here),
              λ i small ne. rw (after, e) (others i small (λ q. ne (q ∙ back))),
            )
      ]

  -- A record that was saved is found under its id, whatever becomes of the bitmap.
  pub grp_find-save :
      (s : nvs.State) (r : GrpRecord)
      → (grp_save nvs s r).1 ≡ true
      → nvs.nvs_open (grp_save nvs s r).0 readonly ≡ true
      → grp_find nvs (grp_save nvs s r).0 r.id ≡ some r
  unfolding grp_find
  grp_find-save s r h opens =
      let (lo, hi, stored, after) = save_ok nvs s r h in
      let blob =
        save_bitmap_blob nvs law (nvs.set_blob s (grp_key r.id) r).0 r.id r.id
        ∙ law.blob_self s (grp_key r.id) r stored in
      let same : (r.id == r.id) ≡ true = (==_iff r.id r.id).1 refl in rw (opens, after, blob, same)

  failed_bmp :
      (t : nvs.State) (id : ℕ)
      → ((v : ℕ) → nvs.get_u32 (nvs.set_u32 t bmp_key v).0 bmp_key ≡ nvs.get_u32 t bmp_key)
      → grp_get_bmp nvs (save_bitmap nvs t id).0 ≡ grp_get_bmp nvs t
  unfolding grp_get_bmp save_bitmap
  failed_bmp t id kept = rw (law.commit_u32 _ bmp_key, kept _)

  -- Where the blob is written and committed but the write of the bitmap fails and leaves the bitmap as
  -- it was, grp_save still returns true, and a group that was new stays out of the table.
  pub grp_save_unlisted :
      (s : nvs.State) (r : GrpRecord)
      → 1 ≤ r.id
      → r.id ≤ 32
      → nvs.nvs_open s readwrite ≡ true
      → (nvs.set_blob s (grp_key r.id) r).1 ≡ true
      → ((t : nvs.State) (v : ℕ)
          → ((nvs.set_u32 t bmp_key v).1 ≡ false)
            × (nvs.get_u32 (nvs.set_u32 t bmp_key v).0 bmp_key ≡ nvs.get_u32 t bmp_key))
      → ((t : nvs.State) → (nvs.commit t).1 ≡ true)
      → test_bit (grp_get_bmp nvs s) (r.id - 1) ≡ false
      → ((grp_save nvs s r).1 ≡ true) × (slot nvs (grp_save nvs s r).0 (r.id - 1) ≡ none)
  unfolding grp_save save_bitmap
  grp_save_unlisted s r lo hi opens stored fails commits free =
      let small : (r.id == 0 || ltb 32 r.id) ≡ false = ground arith in
      let t = (nvs.set_blob s (grp_key r.id) r).0 in
      let same : grp_get_bmp nvs (save_bitmap nvs t r.id).0 ≡ grp_get_bmp nvs s =
        failed_bmp t r.id (λ v. (fails t v).1) ∙ set_blob_bmp nvs law s r r.id in
      rw (small, opens, stored) (commits _, slot_empty nvs _ (r.id - 1) (rw same free))
