-- ===== src/Examples/Flash.antt =====
-- A flash storage that keeps what is written, for the examples.
use mathlib.Core.Logic.{ite, if_pos, if_neg}
use native.Mathlib.Decide.{ℕ_discrete}
use zhac_mono_core.Prelude.{ℕ, ◌≡◌, refl, ◌≢◌, Bool, true, false, Option, none, some, List}
use zhac_mono_core.Groups.Storage.{Nvs, IsNvs, erased, not_found, Blob}

unfoldable pub key_discrete : Discrete (List ℕ)
key_discrete = hlevel ℕ_discrete

abbrev update {ℓ} : {A : Type ℓ} → (List ℕ → A) → List ℕ → A → List ℕ → A
update f k v j = ite (key_discrete k j) v (f j)

update_self {ℓ} : {A : Type ℓ} (f : List ℕ → A) (k : List ℕ) (v : A) → update f k v k ≡ v
update_self f k v = if_pos _ refl v (f k)

update_ne {ℓ} : {A : Type ℓ} (f : List ℕ → A) (k j : List ℕ) (v : A) → k ≢ j → update f k v j ≡ f j
update_ne f k j v h = if_neg _ h v (f j)

pub record Flash : Type 0 where
  pub words : List ℕ → Option ℕ
  pub blobs : List ℕ → Option Blob

-- `word_ok` is what a write of a word returns; one that fails keeps the old word.
abbrev pub flash_nvs : Bool → Nvs
flash_nvs word_ok = record {
  State = Flash;
  nvs_open = λ s m. true;
  get_u32 = λ s k. s.words k;
  set_u32 = λ s k v. (
    record s { words = elim word_ok [ true ↦ update s.words k (some v) | false ↦ s.words ] },
    word_ok,
  );
  get_blob = λ s k. s.blobs k;
  set_blob = λ s k r.
      (record s { blobs = update s.blobs k (some (record { content = r; whole = true })) }, true);
  erase_key = λ s k. (
    record s { blobs = update s.blobs k none },
    elim (s.blobs k) [ none ↦ not_found | some b ↦ erased ],
  );
  commit = λ s. (s, true);
}

word_back :
    (b : Bool) (s : Flash) (k : List ℕ) (v : ℕ)
    → ((flash_nvs b).set_u32 s k v).1 ≡ true
    → (flash_nvs b).get_u32 ((flash_nvs b).set_u32 s k v).0 k ≡ some v
word_back true s k v h = update_self s.words k (some v)
word_back false s k v h = cc

pub flash_nvs-IsNvs : (b : Bool) → IsNvs (flash_nvs b)
flash_nvs-IsNvs b = record {
  blob_self = λ s k r h. update_self s.blobs k _;
  blob_other = λ s k j r h. update_ne s.blobs k j _ h;
  blob_u32 = λ s k j r h. refl;
  u32_self = word_back b;
  u32_blob = λ s k j v h. refl;
  erase_self = λ s k h. update_self s.blobs k none;
  erase_other = λ s k j h. update_ne s.blobs k j none h;
  erase_u32 = λ s k j h. refl;
  commit_blob = λ s k. refl;
  commit_u32 = λ s k. refl;
}
