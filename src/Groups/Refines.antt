-- ===== src/Groups/Refines.antt =====
-- What saving and deleting do to the table.
use zhac_mono_core.Prelude.{ℕ, ◌+◌, ◌-◌, ◌<◌, ◌≡◌, sym, ◌≢◌, true, none, some, arith, ap, ◌∙◌}
use zhac_mono_core.Prelude.Bits.{
  set_bit, clear_bit, test_bit-set_bit_self, test_bit-set_bit_ne, test_bit-clear_bit_self,
  test_bit-clear_bit_ne,
}
use zhac_mono_core.Groups.Storage.{Nvs, IsNvs, GrpRecord}
use zhac_mono_core.Groups.{bmp_key, grp_key, clamp, grp_get_bmp, grp_save, grp_delete}
use zhac_mono_core.Groups.Table.{slot, slot_same, slot_filled, slot_empty}
use zhac_mono_core.Groups.Writes.{
  save_ok, delete_ok, slot_key-ne, save_bitmap_bmp, save_bitmap_blob, delete_bitmap_bmp,
  delete_bitmap_blob, set_blob_bmp, erase_bmp,
}

module _ (nvs : Nvs) (law : IsNvs nvs) where
  -- A save that succeeds puts the record, its count clamped, into its slot and leaves the other
  -- slots alone, provided the writes of the bitmap succeed.
  pub grp_save-slot :
      (s : nvs.State) (r : GrpRecord)
      → ((t : nvs.State) (v : ℕ) → (nvs.set_u32 t bmp_key v).1 ≡ true)
      → (grp_save nvs s r).1 ≡ true
      → (slot nvs (grp_save nvs s r).0 (r.id - 1) ≡ some (clamp r))
        × ((i : ℕ) → i < 32 → i ≢ r.id - 1 → slot nvs (grp_save nvs s r).0 i ≡ slot nvs s i)
  grp_save-slot s r sure h =
      let (lo, hi, stored, after) = save_ok nvs s r h in
      let t = (nvs.set_blob s (grp_key r.id) r).0 in
      let bmp =
        save_bitmap_bmp nvs law t r.id (sure t)
        ∙ ap (λ (w : ℕ). set_bit w (r.id - 1)) (set_blob_bmp nvs law s r r.id) in
      let next : r.id - 1 + 1 ≡ r.id = omega arith in
      rw after (
        slot_filled nvs _ r (r.id - 1) (sym next)
            (rw bmp (test_bit-set_bit_self (grp_get_bmp nvs s) (r.id - 1)))
            (rw next
              (save_bitmap_blob nvs law t r.id r.id ∙ law.blob_self s (grp_key r.id) r stored)),
        λ i small ne.
            slot_same nvs _ s i
              (rw bmp (test_bit-set_bit_ne (grp_get_bmp nvs s) (r.id - 1) i (λ e. ne (sym e))))
              (save_bitmap_blob nvs law t r.id (i + 1)
                ∙ law.blob_other s (grp_key r.id) (grp_key (i + 1)) r
                    (slot_key-ne nvs law r.id i hi small ne lo)),
      )

  -- A delete that succeeds empties the slot and leaves the others alone.
  pub grp_delete-slot :
      (s : nvs.State) (id : ℕ)
      → (grp_delete nvs s id).1 ≡ true
      → (slot nvs (grp_delete nvs s id).0 (id - 1) ≡ none)
        × ((i : ℕ) → i < 32 → i ≢ id - 1 → slot nvs (grp_delete nvs s id).0 i ≡ slot nvs s i)
  grp_delete-slot s id h =
      let (lo, hi, gone, after, cleared) = delete_ok nvs s id h in
      let t = (nvs.erase_key s (grp_key id)).0 in
      let bmp =
        delete_bitmap_bmp nvs law t id cleared
        ∙ ap (λ (w : ℕ). clear_bit w (id - 1)) (erase_bmp nvs law s id) in
      rw after (
        slot_empty nvs _ (id - 1) (rw bmp (test_bit-clear_bit_self (grp_get_bmp nvs s) (id - 1))),
        λ i small ne.
            slot_same nvs _ s i
              (rw bmp (test_bit-clear_bit_ne (grp_get_bmp nvs s) (id - 1) i (λ e. ne (sym e))))
              (delete_bitmap_blob nvs law t id (i + 1)
                ∙ law.erase_other s (grp_key id) (grp_key (i + 1))
                    (slot_key-ne nvs law id i hi small ne lo)),
      )
