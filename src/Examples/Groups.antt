-- ===== src/Examples/Groups.antt =====
-- Examples of the group store, over a flash that works and one whose word writes fail.
use zhac_mono_core.Prelude.{
  ℕ, ◌+◌, ◌≤◌, ◌<◌, ◌≡◌, ◌≢◌, ◌⊎◌, refl, true, false, some, none, [], ◌∷◌, arith, replicate, length,
  take,
}
use zhac_mono_core.Prelude.Text.{bytes}
use zhac_mono_core.Prelude.Bits.{test_bit}
use zhac_mono_core.Examples.Flash.{Flash, flash_nvs, flash_nvs-IsNvs}
use zhac_mono_core.Groups.Storage.{GrpRecord}
use zhac_mono_core.Groups.{
  clamp, grp_get_bmp, next_from, grp_next_id, grp_save, save_bitmap, grp_create, grp_delete,
  delete_bitmap, grp_to_json,
}
use zhac_mono_core.Groups.Table.{slot}
use zhac_mono_core.Groups.Refines.{grp_save-slot, grp_delete-slot}
use zhac_mono_core.Groups.Create.{grp_create-slot, grp_save_unlisted}
use zhac_mono_core.Groups.Row.{row_text, grp_to_json-row}

abbrev empty_flash : Flash
empty_flash = record { words = λ k. none; blobs = λ k. none }

abbrev lamps : GrpRecord
lamps = record {
  id = 3;
  name = bytes "lamps";
  member_count = 1;
  members = record { ieee = 0xAB; ep = 1 } ∷ [];
}

grp_save-slot_example :
    (slot (flash_nvs true) (grp_save (flash_nvs true) empty_flash lamps).0 2 ≡ some (clamp lamps))
    × ((i : ℕ)
        → i < 32
        → i ≢ 2
        → slot (flash_nvs true) (grp_save (flash_nvs true) empty_flash lamps).0 i
          ≡ slot (flash_nvs true) empty_flash i)
unfolding grp_save save_bitmap
grp_save-slot_example =
    grp_save-slot (flash_nvs true) (flash_nvs-IsNvs true) empty_flash lamps (λ t v. refl) refl

grp_delete-slot_example :
    (slot (flash_nvs true) (grp_delete (flash_nvs true) empty_flash 3).0 2 ≡ none)
    × ((i : ℕ)
        → i < 32
        → i ≢ 2
        → slot (flash_nvs true) (grp_delete (flash_nvs true) empty_flash 3).0 i
          ≡ slot (flash_nvs true) empty_flash i)
unfolding grp_delete delete_bitmap
grp_delete-slot_example = grp_delete-slot (flash_nvs true) (flash_nvs-IsNvs true) empty_flash 3 refl

grp_create-slot_example :
    (k : ℕ) × (k < 32)
    × ((grp_create (flash_nvs true) empty_flash lamps).2 ≡ record lamps { id = k + 1 })
    × (test_bit (grp_get_bmp (flash_nvs true) empty_flash) k ≡ false)
    × ((j : ℕ) → j < k → test_bit (grp_get_bmp (flash_nvs true) empty_flash) j ≡ true)
    × (slot (flash_nvs true) empty_flash k ≡ none)
    × (slot (flash_nvs true) (grp_create (flash_nvs true) empty_flash lamps).0 k
        ≡ some (clamp (record lamps { id = k + 1 })))
    × ((i : ℕ)
        → i < 32
        → i ≢ k
        → slot (flash_nvs true) (grp_create (flash_nvs true) empty_flash lamps).0 i
          ≡ slot (flash_nvs true) empty_flash i)
unfolding grp_create grp_save save_bitmap grp_next_id next_from grp_get_bmp test_bit
grp_create-slot_example =
    grp_create-slot (flash_nvs true) (flash_nvs-IsNvs true) empty_flash lamps refl (λ t v. refl)
      refl

grp_save_unlisted_example :
    ((grp_save (flash_nvs false) empty_flash lamps).1 ≡ true)
    × (slot (flash_nvs false) (grp_save (flash_nvs false) empty_flash lamps).0 2 ≡ none)
unfolding grp_get_bmp test_bit
grp_save_unlisted_example =
    grp_save_unlisted (flash_nvs false) (flash_nvs-IsNvs false) empty_flash lamps (omega arith)
      (omega arith) refl refl (λ t v. (refl, refl)) (λ t. refl) refl

grp_to_json-row_example :
    ((length (row_text lamps) ≤ 80)
      × ((grp_to_json lamps (replicate 80 0) 80).0 ≡ length (row_text lamps))
      × (take (length (row_text lamps)) (grp_to_json lamps (replicate 80 0) 80).1 ≡ row_text lamps))
    ⊎ ((80 < length (row_text lamps)) × ((grp_to_json lamps (replicate 80 0) 80).0 ≡ 0))
grp_to_json-row_example = grp_to_json-row lamps (replicate 80 0) 80 refl
