-- ===== src/Bridge/Devices/Address.antt =====
-- main/ws_bridge.cpp: a device command whose address is missing or reads as 0 does nothing but refuse.
use zhac_mono_core.Prelude.{
  ℕ, ◌≡◌, refl, true, Option, none, some, List, [], ◌∷◌, ◌==◌, All, arith, Option-cases, inl, inr,
}
use zhac_mono_core.Prelude.Text.{bytes}
use zhac_mono_core.Document.{Json, as_text, natural}
use zhac_mono_core.Devlist.Page.{parse_ieee}
use zhac_mono_core.Bridge.World.{Fd, Action, Platform, World, arg}
use zhac_mono_core.Bridge.Reply.{IsRefusal, send_err, send_err-IsRefusal}
use zhac_mono_core.Bridge.Devices.{
  not_empty, with_ieee, cmd_device_reinterview, cmd_device_configure, cmd_device_rename,
  cmd_device_delete, cmd_device_attr_set, cmd_device_options_set, cmd_device_bind, cursor_address,
}

module _ (p : Platform) (w : World p) (fd : Fd) (id : ℕ) where
  -- The world is as it was, and the answer is an error.
  abbrev pub OnlyRefuses : World p × List Action → Type 0
  OnlyRefuses r = (r.0 ≡ w) × All IsRefusal r.1

  refuses : (err : List ℕ) → OnlyRefuses (w, send_err fd id err)
  refuses err = (refl, send_err-IsRefusal fd id err)

  with_ieee-refuses :
      (s : Option (List ℕ)) (run : ℕ → World p × List Action)
      → cursor_address s ≡ 0
      → OnlyRefuses (with_ieee p w fd id s run)
  unfolding with_ieee
  with_ieee-refuses none run h = refuses (bytes "missing ieee")
  with_ieee-refuses (some s) run h =
      let z : (parse_ieee s == 0) ≡ true = ground arith in rw z (refuses (bytes "bad ieee"))

  not_empty-zero : (s : Option (List ℕ)) → cursor_address s ≡ 0 → cursor_address (not_empty s) ≡ 0
  not_empty-zero none h = h
  not_empty-zero (some []) h = refl
  not_empty-zero (some (c ∷ s)) h = h

  module _ (doc : Json) (h : cursor_address (as_text (arg doc "ieee")) ≡ 0) where
    rename-refuses : OnlyRefuses (cmd_device_rename p w fd id doc)
    unfolding cmd_device_rename
    rename-refuses = elim (Option-cases (as_text (arg doc "ieee"))) [
      | inl e ↦ rw (cmd_device_rename, e) (refuses (bytes "missing ieee"))
      | inr (s, e) ↦ elim (Option-cases (not_empty (as_text (arg doc "name")))) [
        | inl f ↦ rw (cmd_device_rename, e, f) (refuses (bytes "missing name"))
        | inr (name, f) ↦ rw (cmd_device_rename, e, f) (with_ieee-refuses (some s) _ (rw e at h))
      ]
    ]

    attr_set-refuses : OnlyRefuses (cmd_device_attr_set p w fd id doc)
    unfolding cmd_device_attr_set
    attr_set-refuses = elim (Option-cases (as_text (arg doc "ieee"))) [
      | inl e ↦ rw (cmd_device_attr_set, e) (refuses (bytes "missing ieee or key"))
      | inr (s, e) ↦ elim (Option-cases (as_text (arg doc "key"))) [
        | inl f ↦ rw (cmd_device_attr_set, e, f) (refuses (bytes "missing ieee or key"))
        | inr (key, f) ↦ rw (cmd_device_attr_set, e, f) (with_ieee-refuses (some s) _ (rw e at h))
      ]
    ]

    bind-refuses : OnlyRefuses (cmd_device_bind p w fd id doc)
    unfolding cmd_device_bind
    bind-refuses = elim (Option-cases (as_text (arg doc "ieee"))) [
      | inl e ↦ rw (cmd_device_bind, e) (refuses (bytes "missing ieee / src_ep / cluster"))
      | inr (s, e) ↦ elim (Option-cases (natural (arg doc "src_ep"))) [
        | inl f ↦ rw (cmd_device_bind, e, f) (refuses (bytes "missing ieee / src_ep / cluster"))
        | inr (ep, f) ↦ elim (Option-cases (natural (arg doc "cluster"))) [
          | inl g ↦
              rw (cmd_device_bind, e, f, g) (refuses (bytes "missing ieee / src_ep / cluster"))
          | inr (cl, g) ↦ rw (cmd_device_bind, e, f, g) (with_ieee-refuses (some s) _ (rw e at h))
        ]
      ]
    ]

    -- Where args.ieee is missing, is no text or reads as 0, none of the commands that act on one device changes
    -- anything: each only answers with an error.
    pub device_verbs-OnlyRefuses :
        OnlyRefuses (cmd_device_reinterview p w fd id doc)
        × OnlyRefuses (cmd_device_configure p w fd id doc)
        × OnlyRefuses (cmd_device_rename p w fd id doc)
        × OnlyRefuses (cmd_device_delete p w fd id doc)
        × OnlyRefuses (cmd_device_attr_set p w fd id doc)
        × OnlyRefuses (cmd_device_options_set p w fd id doc)
        × OnlyRefuses (cmd_device_bind p w fd id doc)
    unfolding cmd_device_reinterview cmd_device_configure cmd_device_delete cmd_device_options_set
    device_verbs-OnlyRefuses =
        let s = as_text (arg doc "ieee") in
        (
          with_ieee-refuses (not_empty s) _ (not_empty-zero s h),
          with_ieee-refuses s _ h,
          rename-refuses,
          with_ieee-refuses s _ h,
          attr_set-refuses,
          with_ieee-refuses s _ h,
          bind-refuses,
        )
