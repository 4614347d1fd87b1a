-- ===== src/Groups/Table.antt =====
-- The store as a table of 32 slots, and what grp_load_all lists of it.
use zhac_mono_core.Prelude.{
  ℕ, zero, suc, ◌+◌, ◌-◌, ◌<◌, ◌≡◌, refl, ◌≢◌, ◌/◌, ◌%◌, inl, inr, true, false, Option, none, some,
  List, [], ◌∷◌, arith, Option-cases, ◌==◌, ==_iff, take, ap,
}
use zhac_mono_core.Prelude.Bits.{test_bit}
use zhac_mono_core.Prelude.Text.{hex_digit}
use zhac_mono_core.Groups.Storage.{Nvs, readonly, GrpRecord}
use zhac_mono_core.Groups.{
  bmp_key, grp_key, clamp, grp_get_bmp, slot_record, load_from, grp_load_all,
}

pub grp_key-ne-bmp : (id : ℕ) → grp_key id ≢ bmp_key
unfolding grp_key
grp_key-ne-bmp id e = cc

hex_digit_injective : (a b : ℕ) → a < 16 → b < 16 → hex_digit a ≡ hex_digit b → a ≡ b
hex_digit_injective a b h k e = ground arith

pub grp_key_injective : (i j : ℕ) → i < 65536 → j < 65536 → grp_key i ≡ grp_key j → i ≡ j
unfolding grp_key
grp_key_injective i j h k e = ground (
  arith,
  hex_digit_injective (i % 16) (j % 16),
  hex_digit_injective (i / 16 % 16) (j / 16 % 16),
  hex_digit_injective (i / 16 / 16 % 16) (j / 16 / 16 % 16),
  hex_digit_injective (i / 16 / 16 / 16 % 16) (j / 16 / 16 / 16 % 16),
)

module _ (nvs : Nvs) where
  -- Slot `i` of the table, for group `i + 1`.
  abbrev pub slot : nvs.State → ℕ → Option GrpRecord
  slot s i = slot_record nvs s (grp_get_bmp nvs s) i

  -- The table's slots from `i` on that hold a group.
  pub groups_from : nvs.State → ℕ → ℕ → List GrpRecord
  groups_from s zero i = []
  groups_from s (suc rounds) i = elim (slot s i) [
    | none ↦ groups_from s rounds (i + 1)
    | some r ↦ r ∷ groups_from s rounds (i + 1)
  ]

  -- A slot depends on its bit and its blob alone.
  pub slot_same :
      (s t : nvs.State) (i : ℕ)
      → test_bit (grp_get_bmp nvs s) i ≡ test_bit (grp_get_bmp nvs t) i
      → nvs.get_blob s (grp_key (i + 1)) ≡ nvs.get_blob t (grp_key (i + 1))
      → slot s i ≡ slot t i
  unfolding slot_record
  slot_same s t i b g = rw (b, g)

  pub slot_filled :
      (s : nvs.State) (r : GrpRecord) (i : ℕ)
      → r.id ≡ i + 1
      → test_bit (grp_get_bmp nvs s) i ≡ true
      → nvs.get_blob s (grp_key (i + 1)) ≡ some (record { content = r; whole = true })
      → slot s i ≡ some (clamp r)
  unfolding slot_record
  slot_filled s r i id b g =
      let e : (r.id == i + 1) ≡ true = (==_iff r.id (i + 1)).1 id in rw (b, g, e)

  pub slot_empty :
      (s : nvs.State) (i : ℕ) → test_bit (grp_get_bmp nvs s) i ≡ false → slot s i ≡ none
  unfolding slot_record
  slot_empty s i b = rw b

  load_from-take :
      (s : nvs.State) (rounds i room : ℕ)
      → load_from nvs s (grp_get_bmp nvs s) rounds i room ≡ take room (groups_from s rounds i)
  unfolding load_from groups_from
  load_from-take s zero i zero = refl
  load_from-take s zero i (suc room) = refl
  load_from-take s (suc rounds) i zero = refl
  load_from-take s (suc rounds) i (suc room) =
      let full : (suc room == 0) ≡ false = ground arith in
      let less : suc room - 1 ≡ room = omega arith in
      elim (Option-cases (slot s i)) [
        | inl e ↦ rw (e, groups_from, full) (load_from-take s rounds (i + 1) (suc room))
        | inr (r, e) ↦
            rw (e, groups_from, full, less) (ap (◌∷◌ r) (load_from-take s rounds (i + 1) room))
      ]

  -- With the namespace open, grp_load_all lists the first `max` groups of the table, by id.
  pub grp_load_all-take :
      (s : nvs.State) (max : ℕ)
      → nvs.nvs_open s readonly ≡ true
      → grp_load_all nvs s max ≡ take max (groups_from s 32 0)
  unfolding grp_load_all
  grp_load_all-take s max o = rw o (load_from-take s 32 0 max)
