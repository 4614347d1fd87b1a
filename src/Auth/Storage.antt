-- ===== src/Auth/Storage.antt =====
-- What main/auth.cpp keeps in the NVS namespace zhac_auth, and the calls it makes of ESP-IDF for it.
use zhac_mono_core.Prelude.{ℕ, ◌≡◌, ◌≢◌, Bool, true, Option, some, List}

-- "enabled", "token", "pw_salt" and "pw_hash".
pub data Key : Type 0 where
  enabled token pw_salt pw_hash : Key

-- nvs_flash: a value is a list of bytes (a blob, a string without its NUL) or a single byte. A getter
-- is none where it does not return ESP_OK, a setter returns the new flash and whether it returned ESP_OK.
pub record Nvs : Type 1 where
  pub Flash : Type 0
  pub nvs_open : Flash → Bool
  pub get_u8 : Flash → Key → Option ℕ
  pub get_str : Flash → Key → Option (List ℕ)
  pub get_blob : Flash → Key → Option (List ℕ)
  pub set_u8 : Flash → Key → ℕ → Flash × Bool
  pub set_str : Flash → Key → List ℕ → Flash × Bool
  pub set_blob : Flash → Key → List ℕ → Flash × Bool
  pub commit : Flash → Flash × Bool

-- A write that succeeds is read back; a blob that is written leaves the other keys alone; a commit changes no value, and
-- neither of them closes the namespace to the next boot.
pub record IsNvs (n : Nvs) : Type 0 where
  pub blob_self :
      (f : n.Flash) (k : Key) (v : List ℕ)
      → (n.set_blob f k v).1 ≡ true
      → n.get_blob (n.set_blob f k v).0 k ≡ some v
  pub blob_other :
      (f : n.Flash) (k j : Key) (v : List ℕ)
      → k ≢ j
      → n.get_blob (n.set_blob f k v).0 j ≡ n.get_blob f j
  pub str_self :
      (f : n.Flash) (k : Key) (v : List ℕ)
      → (n.set_str f k v).1 ≡ true
      → n.get_str (n.set_str f k v).0 k ≡ some v
  pub str_blob :
      (f : n.Flash) (k j : Key) (v : List ℕ) → n.get_blob (n.set_str f k v).0 j ≡ n.get_blob f j
  pub u8_self :
      (f : n.Flash) (k : Key) (v : ℕ)
      → (n.set_u8 f k v).1 ≡ true
      → n.get_u8 (n.set_u8 f k v).0 k ≡ some v
  pub commit_blob : (f : n.Flash) (k : Key) → n.get_blob (n.commit f).0 k ≡ n.get_blob f k
  pub commit_str : (f : n.Flash) (k : Key) → n.get_str (n.commit f).0 k ≡ n.get_str f k
  pub commit_u8 : (f : n.Flash) (k : Key) → n.get_u8 (n.commit f).0 k ≡ n.get_u8 f k
