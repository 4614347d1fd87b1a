-- ===== src/Groups/Writes.antt =====
-- What saving and deleting leave in the flash.
use zhac_mono_core.Prelude.{
  ℕ, ◌+◌, ◌-◌, ◌≤◌, ◌<◌, ◌≡◌, sym, ◌≢◌, inl, inr, true, arith, Bool-cases, default, ◌∙◌,
}
use zhac_mono_core.Prelude.Bits.{set_bit, clear_bit}
use zhac_mono_core.Groups.Storage.{Nvs, IsNvs, failed, GrpRecord}
use zhac_mono_core.Groups.{
  bmp_key, grp_key, grp_get_bmp, save_bitmap, grp_save, delete_bitmap, grp_delete,
}
use zhac_mono_core.Groups.Table.{grp_key-ne-bmp, grp_key_injective}

module _ (nvs : Nvs) where
  pub save_ok :
      (s : nvs.State) (r : GrpRecord)
      → (grp_save nvs s r).1 ≡ true
      → (1 ≤ r.id)
        × (r.id ≤ 32)
        × ((nvs.set_blob s (grp_key r.id) r).1 ≡ true)
        × ((grp_save nvs s r).0 ≡ (save_bitmap nvs (nvs.set_blob s (grp_key r.id) r).0 r.id).0)
  unfolding grp_save
  save_ok s r h = (ground arith, ground arith, ground arith, ground arith)

  pub delete_ok :
      (s : nvs.State) (id : ℕ)
      → (grp_delete nvs s id).1 ≡ true
      → (1 ≤ id)
        × (id ≤ 32)
        × ((nvs.erase_key s (grp_key id)).1 ≢ failed)
        × ((grp_delete nvs s id).0 ≡ (delete_bitmap nvs (nvs.erase_key s (grp_key id)).0 id).0)
        × ((delete_bitmap nvs (nvs.erase_key s (grp_key id)).0 id).1 ≡ true)
  unfolding grp_delete
  delete_ok s id h = (ground arith, ground arith, ground arith, ground arith, ground arith)

  module _ (law : IsNvs nvs) where
    -- The key of slot `i` is that of no other group, nor of the bitmap.
    pub slot_key-ne :
        (id i : ℕ) → id ≤ 32 → i < 32 → i ≢ id - 1 → 1 ≤ id → grp_key id ≢ grp_key (i + 1)
    slot_key-ne id i h k ne pos e =
        ne (omega (arith, grp_key_injective id (i + 1) (omega arith) (omega arith) e))

    bmp-ne-key : (id : ℕ) → bmp_key ≢ grp_key id
    bmp-ne-key id e = grp_key-ne-bmp id (sym e)

    pub save_bitmap_bmp :
        (t : nvs.State) (id : ℕ)
        → ((v : ℕ) → (nvs.set_u32 t bmp_key v).1 ≡ true)
        → grp_get_bmp nvs (save_bitmap nvs t id).0 ≡ set_bit (grp_get_bmp nvs t) (id - 1)
    unfolding grp_get_bmp save_bitmap
    save_bitmap_bmp t id sure = rw (law.commit_u32 _ bmp_key, law.u32_self t bmp_key _ (sure _))

    pub save_bitmap_blob :
        (t : nvs.State) (id j : ℕ)
        → nvs.get_blob (save_bitmap nvs t id).0 (grp_key j) ≡ nvs.get_blob t (grp_key j)
    unfolding save_bitmap
    save_bitmap_blob t id j =
        law.commit_blob _ (grp_key j) ∙ law.u32_blob t bmp_key (grp_key j) _ (bmp-ne-key j)

    pub set_blob_bmp :
        (s : nvs.State) (r : GrpRecord) (id : ℕ)
        → grp_get_bmp nvs (nvs.set_blob s (grp_key id) r).0 ≡ grp_get_bmp nvs s
    unfolding grp_get_bmp
    set_blob_bmp s r id = rw (law.blob_u32 s (grp_key id) bmp_key r (grp_key-ne-bmp id))

    pub erase_bmp :
        (s : nvs.State) (id : ℕ)
        → grp_get_bmp nvs (nvs.erase_key s (grp_key id)).0 ≡ grp_get_bmp nvs s
    unfolding grp_get_bmp
    erase_bmp s id = rw (law.erase_u32 s (grp_key id) bmp_key (grp_key-ne-bmp id))

    pub delete_bitmap_bmp :
        (t : nvs.State) (id : ℕ)
        → (delete_bitmap nvs t id).1 ≡ true
        → grp_get_bmp nvs (delete_bitmap nvs t id).0 ≡ clear_bit (grp_get_bmp nvs t) (id - 1)
    unfolding grp_get_bmp delete_bitmap
    delete_bitmap_bmp t id h =
        elim (Bool-cases
          (nvs.set_u32 t bmp_key (clear_bit (default (nvs.get_u32 t bmp_key) 0) (id - 1))).1) [
            | inl e ↦ rw (e, law.commit_u32 _ bmp_key, law.u32_self t bmp_key _ e)
            | inr e ↦ absurd (cc (rw e at h))
          ]

    pub delete_bitmap_blob :
        (t : nvs.State) (id j : ℕ)
        → nvs.get_blob (delete_bitmap nvs t id).0 (grp_key j) ≡ nvs.get_blob t (grp_key j)
    unfolding delete_bitmap
    delete_bitmap_blob t id j =
        let v = clear_bit (grp_get_bmp nvs t) (id - 1) in
        let same = law.u32_blob t bmp_key (grp_key j) v (bmp-ne-key j) in
        elim (Bool-cases (nvs.set_u32 t bmp_key v).1) [
          | inl e ↦ rw e (law.commit_blob _ (grp_key j) ∙ same)
          | inr e ↦ rw e same
        ]
