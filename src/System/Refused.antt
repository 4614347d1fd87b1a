-- ===== src/System/Refused.antt =====
-- main/api_system.cpp: what a settings document that is turned away has done.
use zhac_mono_core.Prelude.{
  ◌≡◌, refl, ◌⊎◌, inl, inr, false, none, some, List, ℕ, Bool-cases, Option-cases, arith,
}
use zhac_mono_core.Document.{Json, JsonLib, member, as_text}
use zhac_mono_core.Auth.Storage as AuthStorage
use zhac_mono_core.System.{Nvs, Gateway, Settings, apply_gateway, system_apply_settings}

module _ (nvs : Nvs) (keys : AuthStorage.Nvs) (gate : Gateway) (lib : JsonLib) where
  -- The document names a time server that is refused, after the gateway's settings were applied.
  abbrev pub IsServerRefused : Settings nvs keys gate lib → List ℕ → gate.State → Type 0
  IsServerRefused w json g =
      (doc : Json) × (server : List ℕ) × (lib.deserialize json ≡ some doc)
      × (as_text (member doc "ntp_server") ≡ some server)
      × (gate.ntp_set_server (apply_gateway nvs keys gate lib w.gateway doc) server ≡ (g, false))

  -- Settings that are turned away change no switch, no time zone, nothing about access and nothing about the log.
  -- Either they are no JSON and change nothing at all, or they name a time server that is refused, and the gateway's
  -- settings of the same document are in force all the same.
  pub system_apply_settings-refused :
      (w : Settings nvs keys gate lib) (json : List ℕ)
      → (system_apply_settings nvs keys gate lib w json).1 ≡ false
      → ((system_apply_settings nvs keys gate lib w json).0.sys ≡ w.sys)
        × ((system_apply_settings nvs keys gate lib w json).0.auth ≡ w.auth)
        × ((system_apply_settings nvs keys gate lib w json).0.log ≡ w.log)
        × (((lib.deserialize json ≡ none)
              × ((system_apply_settings nvs keys gate lib w json).0.gateway ≡ w.gateway))
            ⊎ IsServerRefused w json (system_apply_settings nvs keys gate lib w json).0.gateway)
  unfolding system_apply_settings
  system_apply_settings-refused w json h = elim (Option-cases (lib.deserialize json)) [
    | inl e ↦ rw (system_apply_settings, e) (refl, refl, refl, inl (refl, refl))
    | inr (doc, e) ↦ elim (Option-cases (as_text (member doc "ntp_server"))) [
      | inl t ↦ absurd (ground (arith, e, t))
      | inr (server, t) ↦
          let g = gate.ntp_set_server (apply_gateway nvs keys gate lib w.gateway doc) server in
          elim (Bool-cases g.1) [
            | inl ok ↦ absurd (ground (arith, e, t, ok))
            | inr no_ok ↦
                rw (system_apply_settings, e, t, no_ok)
                  (refl, refl, refl, inr (doc, server, refl, t, ground (arith, no_ok)))
          ]
    ]
  ]
