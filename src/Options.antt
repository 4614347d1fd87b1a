-- ===== src/Options.antt =====
-- main/device_options.cpp: the options of a device, applied to the device shadow and kept in NVS.
-- `Shadow` stands for device_shadow's setters, `Nvs` for the namespace zhac_opt.
pub mod Keys
pub mod Kept
use zhac_mono_core.Prelude.{
  ℕ, ◌-◌, ◌^◌, ◌≡◌, ◌≢◌, Bool, true, false, ◌&&◌, ◌||◌, not, Option, none, some, List, [], ◌∷◌, ltb,
  ◌==◌, if◌then◌else◌, take, length,
}
use zhac_mono_core.Prelude.Text.{hex_digit, hex_fixed}
use zhac_mono_core.Prelude.Hex.{strtoull16}
use zhac_mono_core.Document.{ℤ, Json, member, as_int, wrap, JsonLib, serialize_to}

pub record Shadow : Type 1 where
  pub State : Type 0
  pub set_occupancy_timeout : State → ℕ → ℕ → State × Bool
  pub set_debounce_ms : State → ℕ → ℕ → State × Bool
  pub set_throttle_ms : State → ℕ → ℕ → State × Bool

-- A getter is none where it does not return ESP_OK; a setter returns the new flash and whether it
-- returned ESP_OK. `keys` are the entries that the iterator meets.
pub record Nvs : Type 1 where
  pub Flash : Type 0
  pub nvs_open : Flash → Bool
  pub get_str : Flash → List ℕ → Option (List ℕ)
  pub set_str : Flash → List ℕ → List ℕ → Flash × Bool
  pub commit : Flash → Flash × Bool
  pub keys : Flash → List (List ℕ)

-- A write that succeeds is read back, and a commit changes nothing that is read.
pub record IsNvs (n : Nvs) : Type 0 where
  pub str_self :
      (f : n.Flash) (k v : List ℕ)
      → (n.set_str f k v).1 ≡ true
      → n.get_str (n.set_str f k v).0 k ≡ some v
  pub commit_str : (f : n.Flash) (k : List ℕ) → n.get_str (n.commit f).0 k ≡ n.get_str f k

-- `%014llx` of a 64-bit number has as many digits as it needs, 14 at least; 15 bytes fit beside the NUL.
unfoldable pub key_for : ℕ → List ℕ
key_for ieee = take 15 (
    hex_fixed hex_digit (if ltb ieee (2 ^ 56) then 14 else if ltb ieee (2 ^ 60) then 15 else 16)
      ieee)

module _ (shadow : Shadow) (nvs : Nvs) (lib : JsonLib) where
  -- s_open, the namespace, and the shadow.
  pub record Options : Type 0 where
    pub s_open : Bool
    pub flash : nvs.Flash
    pub state : shadow.State

  -- One `if (doc[...].is<int>())` of apply_opts: the setter's result is and-ed to `ok`.
  unfoldable pub apply_field :
      (shadow.State → ℕ → shadow.State × Bool)
      → ℕ
      → Option ℤ
      → shadow.State × Bool
      → shadow.State × Bool
  apply_field set w none (s, ok) = (s, ok)
  apply_field set w (some n) (s, ok) = let done = set s (wrap w n) in (done.0, done.1 && ok)

  unfoldable pub apply_opts : shadow.State → ℕ → Json → shadow.State × Bool
  apply_opts s ieee doc =
      let one =
        apply_field (λ t n. shadow.set_occupancy_timeout t ieee n) 16
          (as_int (member doc "occupancy_timeout")) (s, true) in
      let two =
        apply_field (λ t n. shadow.set_debounce_ms t ieee n) 32
          (as_int (member doc "flood_protection")) one in
      let three =
        apply_field (λ t n. shadow.set_debounce_ms t ieee n) 32 (as_int (member doc "debounce_ms"))
          two in
      apply_field (λ t n. shadow.set_throttle_ms t ieee n) 32 (as_int (member doc "throttle_ms"))
        three

  -- Whether there is a handle, which is kept once it was opened.
  unfoldable pub opts_nvs : Options → Options × Bool
  opts_nvs o =
      if o.s_open
      then (o, true)
      else if nvs.nvs_open o.flash
      then (record o { s_open = true }, true)
      else (o, false)

  -- The blob replaces what was kept for the device; a failure is only logged.
  unfoldable pub persist : Options → ℕ → Json → Options
  persist o ieee doc =
      let blob = serialize_to lib doc 192 in
      let wrote = nvs.set_str o.flash (key_for ieee) blob in
      let kept = if wrote.1 then (nvs.commit wrote.0).0 else wrote.0 in
      if length blob == 0 || not (ltb (length blob) 192) then o else record o { flash = kept }

  unfoldable pub device_options_set : Options → ℕ → List ℕ → Options × Bool
  device_options_set o ieee json = elim (lib.deserialize json) [
    | none ↦ (o, false)
    | some doc ↦
        let applied = apply_opts o.state ieee doc in
        let opened = opts_nvs (record o { state = applied.0 }) in
        (if opened.1 then persist opened.0 ieee doc else opened.0, applied.1)
  ]

  -- The text read; the length returned is its length. `cap` bytes hold it with its NUL, or the getter fails.
  unfoldable pub device_options_get_json : Options → ℕ → ℕ → Options × List ℕ
  device_options_get_json o ieee cap =
      let opened = opts_nvs o in
      let read : List ℕ = elim (nvs.get_str opened.0.flash (key_for ieee)) [
        | none ↦ []
        | some s ↦ if ltb (length s) cap then s else []
      ] in
      if cap == 0 then (o, []) else if opened.1 then (opened.0, read) else (opened.0, [])

  unfoldable pub restore_one : nvs.Flash → List ℕ → shadow.State → shadow.State
  restore_one f key s =
      let ieee = strtoull16 key in
      let applied : shadow.State = elim (nvs.get_str f key) [
        | none ↦ s
        | some blob ↦
            if not (ltb (length blob) 192)
            then s
            else elim (lib.deserialize blob) [ none ↦ s | some doc ↦ (apply_opts s ieee doc).0 ]
      ] in
      if ieee == 0 then s else applied

  -- The loop over the iterator's entries.
  unfoldable pub restore_from : nvs.Flash → List (List ℕ) → shadow.State → shadow.State
  restore_from f [] s = s
  restore_from f (key ∷ ks) s = restore_from f ks (restore_one f key s)

  unfoldable pub device_options_restore_all : Options → Options
  device_options_restore_all o =
      let opened = opts_nvs o in
      let f = opened.0.flash in
      if opened.1
      then record opened.0 { state = restore_from f (nvs.keys f) opened.0.state }
      else opened.0
