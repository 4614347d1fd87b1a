-- ===== src/System/Restart.antt =====
-- main/sys_state.cpp: the switches and the time zone survive a restart.
use zhac_mono_core.Prelude.{
  ℕ, ◌≡◌, ◌≢◌, ◌<◌, refl, ◌∙◌, Bool, true, false, ◌&&◌, not, some, List, [], ◌∷◌, ◌==◌, ltb,
  if◌then◌else◌, length, default, arith, All,
}
use zhac_mono_core.System.{
  Flag, metrics_en, ap_disabled, Nvs, Sys, nvs_get_u8, nvs_set_u8_commit, stored_timezone,
  sys_state_init, sys_set_metrics_enabled, sys_set_ap_disabled, sys_set_timezone,
}

-- A namespace that opens, and whose writes succeed and touch no other key.
pub record IsSound (n : Nvs) : Type 0 where
  pub opens : (f : n.Flash) → n.nvs_open f ≡ true
  pub u8_self : (f : n.Flash) (k : Flag) (v : ℕ) → n.get_u8 (n.set_u8 f k v) k ≡ some v
  pub u8_other :
      (f : n.Flash) (k j : Flag) (v : ℕ) → k ≢ j → n.get_u8 (n.set_u8 f k v) j ≡ n.get_u8 f j
  pub u8_timezone :
      (f : n.Flash) (k : Flag) (v : ℕ) → n.get_timezone (n.set_u8 f k v) ≡ n.get_timezone f
  pub timezone_self : (f : n.Flash) (t : List ℕ) → n.get_timezone (n.set_timezone f t) ≡ some t
  pub timezone_u8 :
      (f : n.Flash) (t : List ℕ) (k : Flag) → n.get_u8 (n.set_timezone f t) k ≡ n.get_u8 f k
  pub commit_u8 : (f : n.Flash) (k : Flag) → n.get_u8 (n.commit f) k ≡ n.get_u8 f k
  pub commit_timezone : (f : n.Flash) → n.get_timezone (n.commit f) ≡ n.get_timezone f

pub data Change : Type 0 where
  metrics access_point : Bool → Change
  timezone : List ℕ → Change

pub change : (nvs : Nvs) → Sys nvs.Flash → Change → Sys nvs.Flash
change nvs s (metrics b) = sys_set_metrics_enabled nvs s b
change nvs s (access_point b) = sys_set_ap_disabled nvs s b
change nvs s (timezone t) = sys_set_timezone nvs s t

pub changes : (nvs : Nvs) → Sys nvs.Flash → List Change → Sys nvs.Flash
changes nvs s [] = s
changes nvs s (c ∷ cs) = changes nvs (change nvs s c) cs

-- A time zone that the boot's buffer holds.
abbrev pub Fits : Change → Type 0
Fits (metrics b) = Unit
Fits (access_point b) = Unit
Fits (timezone t) = (0 < length t) × (length t < 64)

-- What the boot would read is what is in force.
pub record IsStored (nvs : Nvs) (s : Sys nvs.Flash) : Type 0 where
  pub metrics : not (default (nvs.get_u8 s.flash metrics_en) 0 == 0) ≡ s.s_metrics_enabled
  pub ap : not (default (nvs.get_u8 s.flash ap_disabled) 0 == 0) ≡ s.s_ap_disabled
  pub zone : stored_timezone nvs s.flash ≡ s.tz

flag_back : (b : Bool) → not ((if b then 1 else 0) == 0) ≡ b
flag_back true = refl
flag_back false = refl

module _ (nvs : Nvs) (law : IsSound nvs) where
  set_u8_zone :
      (f : nvs.Flash) (k : Flag) (v : ℕ)
      → stored_timezone nvs (nvs_set_u8_commit nvs f k v) ≡ stored_timezone nvs f
  unfolding stored_timezone nvs_set_u8_commit
  set_u8_zone f k v =
      rw
        (
          law.opens f,
          law.opens (nvs.commit (nvs.set_u8 f k v)),
          law.commit_timezone,
          law.u8_timezone,
        )
        refl

  set_u8_self :
      (f : nvs.Flash) (k : Flag) (v : ℕ) → nvs.get_u8 (nvs_set_u8_commit nvs f k v) k ≡ some v
  unfolding nvs_set_u8_commit
  set_u8_self f k v = rw (law.opens f, law.commit_u8, law.u8_self) refl

  set_u8_other :
      (f : nvs.Flash) (k j : Flag) (v : ℕ)
      → k ≢ j
      → nvs.get_u8 (nvs_set_u8_commit nvs f k v) j ≡ nvs.get_u8 f j
  unfolding nvs_set_u8_commit
  set_u8_other f k j v ne = rw (law.opens f, law.commit_u8) (law.u8_other f k j v ne)

  change-IsStored :
      (s : Sys nvs.Flash) (c : Change) → IsStored nvs s → Fits c → IsStored nvs (change nvs s c)
  unfolding change sys_set_metrics_enabled sys_set_ap_disabled sys_set_timezone
  change-IsStored s (metrics b) h fit = record {
    metrics = rw (set_u8_self s.flash metrics_en _) (flag_back b);
    ap = rw (set_u8_other s.flash metrics_en ap_disabled _ (λ e. cc)) h.ap;
    zone = set_u8_zone s.flash metrics_en _ ∙ h.zone;
  }
  change-IsStored s (access_point b) h fit = record {
    metrics = rw (set_u8_other s.flash ap_disabled metrics_en _ (λ e. cc)) h.metrics;
    ap = rw (set_u8_self s.flash ap_disabled _) (flag_back b);
    zone = set_u8_zone s.flash ap_disabled _ ∙ h.zone;
  }
  change-IsStored s (timezone t) h fit =
      let f' = nvs.commit (nvs.set_timezone s.flash t) in
      let fits : (ltb (length t) 64 && not (length t == 0)) ≡ true = ground arith in
      rw (law.opens s.flash) (record {
        metrics = rw (law.commit_u8, law.timezone_u8) h.metrics;
        ap = rw (law.commit_u8, law.timezone_u8) h.ap;
        zone =
            unfold stored_timezone in
            rw (law.opens f', law.commit_timezone, law.timezone_self, fits) refl;
      })

  changes-IsStored :
      (s : Sys nvs.Flash) (cs : List Change)
      → IsStored nvs s
      → All Fits cs
      → IsStored nvs (changes nvs s cs)
  unfolding changes
  changes-IsStored s [] h fit = h
  changes-IsStored s (c ∷ cs) h (fit, fits) =
      changes-IsStored (change nvs s c) cs (change-IsStored s c h fit) fits

  -- From a boot on, after any number of changes of the switches and of the time zone, each zone of 1 to 63 bytes, a
  -- restart over a namespace that opens and whose writes succeed finds the same switches and the same zone.
  pub sys_state_init-changes :
      (f : nvs.Flash) (cs : List Change)
      → All Fits cs
      → ((sys_state_init nvs (changes nvs (sys_state_init nvs f) cs).flash).s_metrics_enabled
          ≡ (changes nvs (sys_state_init nvs f) cs).s_metrics_enabled)
        × ((sys_state_init nvs (changes nvs (sys_state_init nvs f) cs).flash).s_ap_disabled
            ≡ (changes nvs (sys_state_init nvs f) cs).s_ap_disabled)
        × ((sys_state_init nvs (changes nvs (sys_state_init nvs f) cs).flash).tz
            ≡ (changes nvs (sys_state_init nvs f) cs).tz)
  unfolding sys_state_init nvs_get_u8
  sys_state_init-changes f cs fits =
      let first : IsStored nvs (sys_state_init nvs f) = record {
        metrics = rw (law.opens f) refl;
        ap = rw (law.opens f) refl;
        zone = refl;
      } in
      let last = changes-IsStored (sys_state_init nvs f) cs first fits in
      let here = law.opens (changes nvs (sys_state_init nvs f) cs).flash in
      (rw here last.metrics, rw here last.ap, last.zone)
