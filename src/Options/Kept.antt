-- ===== src/Options/Kept.antt =====
-- main/device_options.cpp: options that were set come back after a restart.
use zhac_mono_core.Prelude.{
  ℕ, ◌/◌, ◌^◌, ◌<◌, ◌≡◌, refl, ◌∙◌, true, false, ◌||◌, not, some, List, [], ◌∷◌, ltb, ◌==◌,
  if◌then◌else◌, Bool-cases, length, take, take_all, arith, inl, inr,
}
use zhac_mono_core.Document.{Json, JsonLib, serialize_to}
use zhac_mono_core.Options.{
  Shadow, Nvs, IsNvs, Options, key_for, apply_opts, opts_nvs, persist, device_options_set,
  restore_one, restore_from, device_options_restore_all,
}
use zhac_mono_core.Options.Keys.{strtoull16-key_for}

-- The address that the key of a device is read back as.
abbrev pub kept_ieee : ℕ → ℕ
kept_ieee ieee = if ltb ieee (2 ^ 60) then ieee else ieee / 16

module _ (shadow : Shadow) (nvs : Nvs) (law : IsNvs nvs) (lib : JsonLib) where
  stored :
      (o : Options shadow nvs lib) (ieee : ℕ) (doc : Json)
      → 0 < length (lib.serialize doc)
      → length (lib.serialize doc) < 192
      → (nvs.set_str o.flash (key_for ieee) (lib.serialize doc)).1 ≡ true
      → nvs.get_str (persist shadow nvs lib o ieee doc).flash (key_for ieee)
        ≡ some (lib.serialize doc)
  unfolding persist serialize_to
  stored o ieee doc lo hi wrote =
      let whole : take 192 (lib.serialize doc) ≡ lib.serialize doc =
        take_all 192 (lib.serialize doc) (omega arith) in
      let fits : (length (lib.serialize doc) == 0 || not (ltb (length (lib.serialize doc)) 192))
          ≡ false =
        ground arith in
      rw (whole, fits, wrote)
        (law.commit_str _ (key_for ieee)
          ∙ law.str_self o.flash (key_for ieee) (lib.serialize doc) wrote)

  set_flash :
      (o : Options shadow nvs lib) (ieee : ℕ) (json : List ℕ) (doc : Json)
      → lib.deserialize json ≡ some doc
      → nvs.nvs_open o.flash ≡ true
      → 0 < length (lib.serialize doc)
      → length (lib.serialize doc) < 192
      → (nvs.set_str o.flash (key_for ieee) (lib.serialize doc)).1 ≡ true
      → nvs.get_str (device_options_set shadow nvs lib o ieee json).0.flash (key_for ieee)
        ≡ some (lib.serialize doc)
  unfolding device_options_set opts_nvs
  set_flash o ieee json doc read opens lo hi wrote =
      let applied = apply_opts shadow nvs lib o.state ieee doc in
      let o' : Options shadow nvs lib = record o { state = applied.0 } in
      rw (device_options_set, read)
        (elim (Bool-cases o.s_open) [
          | inl e ↦ simp e (stored (record o' { s_open = true }) ieee doc lo hi wrote)
          | inr e ↦ simp (e, opens) (stored (record o' { s_open = true }) ieee doc lo hi wrote)
        ])

  restored :
      (f : nvs.Flash) (ieee : ℕ) (doc : Json) (s : shadow.State)
      → 0 < ieee
      → ieee < 2 ^ 64
      → length (lib.serialize doc) < 192
      → lib.deserialize (lib.serialize doc) ≡ some doc
      → nvs.get_str f (key_for ieee) ≡ some (lib.serialize doc)
      → restore_one shadow nvs lib f (key_for ieee) s
        ≡ (apply_opts shadow nvs lib s (kept_ieee ieee) doc).0
  unfolding restore_one
  restored f ieee doc s pos top hi back read =
      let key = strtoull16-key_for ieee top in
      let some_ieee : (kept_ieee ieee == 0) ≡ false = ground arith in
      let small : ltb (length (lib.serialize doc)) 192 ≡ true = ground arith in
      rw (key, some_ieee, read) (rw (small, back, key) refl)

  -- Options of at most 191 bytes that were set for a device, and stored, are applied again by the restore at the next boot, where the namespace
  -- opens and holds this device alone: the setters are called with the same options, for the address that the
  -- device's key is read back as, which is the device's own below 2^60 and not from there on.
  pub restore-set :
      (o : Options shadow nvs lib) (ieee : ℕ) (json : List ℕ) (doc : Json) (boot : shadow.State)
      → 0 < ieee
      → ieee < 2 ^ 64
      → lib.deserialize json ≡ some doc
      → lib.deserialize (lib.serialize doc) ≡ some doc
      → 0 < length (lib.serialize doc)
      → length (lib.serialize doc) < 192
      → nvs.nvs_open o.flash ≡ true
      → (nvs.set_str o.flash (key_for ieee) (lib.serialize doc)).1 ≡ true
      → nvs.nvs_open (device_options_set shadow nvs lib o ieee json).0.flash ≡ true
      → nvs.keys (device_options_set shadow nvs lib o ieee json).0.flash ≡ key_for ieee ∷ []
      → (device_options_restore_all shadow nvs lib (record {
        s_open = false;
        flash = (device_options_set shadow nvs lib o ieee json).0.flash;
        state = boot;
      })).state
        ≡ (apply_opts shadow nvs lib boot (kept_ieee ieee) doc).0
  unfolding device_options_restore_all opts_nvs restore_from
  restore-set o ieee json doc boot pos top read back lo hi opens wrote again alone =
      let f = (device_options_set shadow nvs lib o ieee json).0.flash in
      let blob = set_flash o ieee json doc read opens lo hi wrote in
      rw (again, alone) (restored f ieee doc boot pos top hi back blob)
