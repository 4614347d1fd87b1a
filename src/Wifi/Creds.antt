-- ===== src/Wifi/Creds.antt =====
-- main/wifi.cpp: the network that was saved is the one that the radio is started with, up to its length.
use zhac_mono_core.Prelude.{
  ℕ, ◌≡◌, ◌≤◌, ◌<◌, refl, ◌∙◌, ap, inl, inr, Bool, true, false, Option, none, some, List, ◌==◌,
  length, take, arith, Bool-cases, is_some,
}
use zhac_mono_core.Wifi.{
  Key, Nvs, IsNvs, Driver, station, WifiState, ssid, pwd, get_within, load_creds, wifi_save_sta,
  wifi_load_sta_ssid, wifi_start, wifi_get_status, wifi_forget_and_reboot,
}

get_within-some :
    (nvs : Nvs) (f : nvs.Flash) (k : Key) (cap : ℕ) (s : List ℕ)
    → nvs.get_str f k ≡ some s
    → length s < cap
    → get_within nvs f k cap ≡ some s
unfolding get_within
get_within-some nvs f k cap s e h = ground (arith, e)

module _ (nvs : Nvs) (law : IsNvs nvs) (f : nvs.Flash) where
  saved_ok :
      (name password : List ℕ)
      → 0 < length name
      → (wifi_save_sta nvs f name password).1 ≡ true
      → (nvs.get_str (wifi_save_sta nvs f name password).0 ssid ≡ some name)
        × (nvs.get_str (wifi_save_sta nvs f name password).0 pwd ≡ some password)
  unfolding wifi_save_sta
  saved_ok name password h ok =
      let one = nvs.set_str f ssid name in
      let two = nvs.set_str one.0 pwd password in
      let named : (length name == 0) ≡ false = ground arith in
      elim (Bool-cases (nvs.nvs_open f)) [
        | inr shut ↦ absurd (ground arith)
        | inl opened ↦ elim (Bool-cases one.1) [
          | inr a ↦ absurd (ground arith)
          | inl a ↦ elim (Bool-cases two.1) [
            | inr b ↦ absurd (ground arith)
            | inl b ↦
                rw (opened, named, a, b)
                  (
                    law.commit_str two.0 ssid
                        ∙ law.pwd_keeps_ssid one.0 password
                        ∙ law.str_self f ssid name a,
                    law.commit_str two.0 pwd ∙ law.str_self one.0 pwd password b,
                  )
          ]
        ]
      ]

  -- A network that was saved, its name of 1 to 32 bytes and its password of at most 64, is the one that the next boot
  -- starts the station with, but for what the driver's arrays do not hold beside a NUL: a name of 32 bytes loses its
  -- last, and so does a password of 64.
  pub wifi_start-save :
      (driver : Driver) (storage_error : Bool) (name password : List ℕ)
      → driver.ssid_size ≡ 32
      → driver.password_size ≡ 64
      → 0 < length name
      → length name ≤ 32
      → length password ≤ 64
      → (wifi_save_sta nvs f name password).1 ≡ true
      → nvs.nvs_open (wifi_save_sta nvs f name password).0 ≡ true
      → (wifi_start nvs driver storage_error (wifi_save_sta nvs f name password).0).sta
        ≡ some (record { ssid = take 31 name; password = take 63 password })
  unfolding wifi_start
  wifi_start-save driver storage_error name password e k h short small ok opens =
      let (a, b) = saved_ok name password h ok in
      let f' = (wifi_save_sta nvs f name password).0 in
      let one = get_within-some nvs f' ssid 33 name a (omega arith) in
      let two = get_within-some nvs f' pwd 65 password b (omega arith) in
      let named : (length name == 0) ≡ false = ground arith in
      let loaded : load_creds nvs (wifi_save_sta nvs f name password).0 33 65
          ≡ some (name, password) =
        unfold load_creds in rw (opens, one, named, two) refl in
      ap (station driver) loaded ∙ unfold station in rw (e, k) refl

  forget_lem :
      nvs.nvs_open f ≡ true
      → wifi_forget_and_reboot nvs f ≡ nvs.commit (nvs.erase_key (nvs.erase_key f ssid) pwd)
  unfolding wifi_forget_and_reboot wifi_save_sta
  forget_lem opens = ground arith

  -- After wifi_forget_and_reboot no network is stored: where the namespace opens, the next boot is in access-point
  -- mode only, and the status says that no station is configured.
  pub forget-start :
      (driver : Driver) (storage_error : Bool) (s : WifiState) (ip : Option (List ℕ))
      (rssi : Option ℕ)
      → nvs.nvs_open f ≡ true
      → ((wifi_start nvs driver storage_error (wifi_forget_and_reboot nvs f)).sta ≡ none)
        × ((wifi_get_status nvs (wifi_forget_and_reboot nvs f) s ip rssi).sta_configured ≡ false)
  unfolding wifi_start wifi_get_status
  forget-start driver storage_error s ip rssi opens =
      let f' = nvs.commit (nvs.erase_key (nvs.erase_key f ssid) pwd) in
      let moved : wifi_forget_and_reboot nvs f ≡ f' = forget_lem opens in
      let gone : nvs.get_str f' ssid ≡ none =
        law.commit_str _ ssid ∙ law.erase_keeps_none _ pwd ssid (law.erase_self f ssid) in
      let nothing : load_creds nvs f' 33 65 ≡ none =
        unfold load_creds get_within in ground (arith, gone) in
      let unnamed : wifi_load_sta_ssid nvs f' 33 ≡ none =
        unfold wifi_load_sta_ssid get_within in ground (arith, gone) in
      rw moved (ap (station driver) nothing ∙ unfold station in refl, ap is_some unnamed)
