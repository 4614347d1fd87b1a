-- ===== src/Groups/Storage.antt =====
-- The storage that groups_store.cpp calls (ESP-IDF nvs_flash), and the records it keeps there
-- (main/groups_store.h).
use zhac_mono_core.Prelude.{ℕ, ◌≡◌, ◌≢◌, Bool, true, Option, none, some, List}

abbrev pub grp_max_members : ℕ
grp_max_members = 16

abbrev pub grp_max_groups : ℕ
grp_max_groups = 32

pub record GrpMember : Type 0 where
  pub ieee : ℕ
  pub ep : ℕ

-- `name` is the array of 32 bytes, `members` the array of 16.
pub record GrpRecord : Type 0 where
  pub id : ℕ
  pub name : List ℕ
  pub member_count : ℕ
  pub members : List GrpMember

pub data Mode : Type 0 where
  readonly readwrite : Mode

pub data Erased : Type 0 where
  erased not_found failed : Erased

-- What nvs_get_blob leaves in a zeroed GrpRecord, and whether it filled all of its size.
pub record Blob : Type 0 where
  pub content : GrpRecord
  pub whole : Bool

-- nvs_flash. A getter is none where it does not return ESP_OK; a setter returns the new contents of
-- the flash and whether it returned ESP_OK.
pub record Nvs : Type 1 where
  pub State : Type 0
  pub nvs_open : State → Mode → Bool
  pub get_u32 : State → List ℕ → Option ℕ
  pub set_u32 : State → List ℕ → ℕ → State × Bool
  pub get_blob : State → List ℕ → Option Blob
  pub set_blob : State → List ℕ → GrpRecord → State × Bool
  pub erase_key : State → List ℕ → State × Erased
  pub commit : State → State × Bool

-- What the store relies on: a write that succeeds is read back, no write touches another key, and an
-- erased or missing key has no value.
pub record IsNvs (n : Nvs) : Type 0 where
  pub blob_self :
      (s : n.State) (k : List ℕ) (r : GrpRecord)
      → (n.set_blob s k r).1 ≡ true
      → n.get_blob (n.set_blob s k r).0 k ≡ some (record { content = r; whole = true })
  pub blob_other :
      (s : n.State) (k j : List ℕ) (r : GrpRecord)
      → k ≢ j
      → n.get_blob (n.set_blob s k r).0 j ≡ n.get_blob s j
  pub blob_u32 :
      (s : n.State) (k j : List ℕ) (r : GrpRecord)
      → k ≢ j
      → n.get_u32 (n.set_blob s k r).0 j ≡ n.get_u32 s j
  pub u32_self :
      (s : n.State) (k : List ℕ) (v : ℕ)
      → (n.set_u32 s k v).1 ≡ true
      → n.get_u32 (n.set_u32 s k v).0 k ≡ some v
  pub u32_blob :
      (s : n.State) (k j : List ℕ) (v : ℕ)
      → k ≢ j
      → n.get_blob (n.set_u32 s k v).0 j ≡ n.get_blob s j
  pub erase_self :
      (s : n.State) (k : List ℕ)
      → (n.erase_key s k).1 ≢ failed
      → n.get_blob (n.erase_key s k).0 k ≡ none
  pub erase_other :
      (s : n.State) (k j : List ℕ) → k ≢ j → n.get_blob (n.erase_key s k).0 j ≡ n.get_blob s j
  pub erase_u32 :
      (s : n.State) (k j : List ℕ) → k ≢ j → n.get_u32 (n.erase_key s k).0 j ≡ n.get_u32 s j
  pub commit_blob : (s : n.State) (k : List ℕ) → n.get_blob (n.commit s).0 k ≡ n.get_blob s k
  pub commit_u32 : (s : n.State) (k : List ℕ) → n.get_u32 (n.commit s).0 k ≡ n.get_u32 s k
