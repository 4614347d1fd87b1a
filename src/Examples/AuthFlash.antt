-- ===== src/Examples/AuthFlash.antt =====
-- A namespace that keeps what is written, and a hash of one value, for the examples.
use zhac_mono_core.Prelude.{
  ℕ, zero, suc, ◌≡◌, refl, ◌≢◌, Bool, true, false, Option, none, some, List, ◌++◌, ◌==◌, ==_iff,
  if◌then◌else◌, if_cases, replicate, ltb, length, arith,
}
use zhac_mono_core.Auth.Storage.{Nvs, IsNvs, Key, enabled, token, pw_salt, pw_hash}
use zhac_mono_core.Auth.Password.{kdf_loop, kdf, whole_digest}

abbrev code : Key → ℕ
code enabled = 0
code token = 1
code pw_salt = 2
code pw_hash = 3

code_injective : (k j : Key) → code k ≡ code j → k ≡ j
code_injective enabled enabled e = refl
code_injective enabled token e = absurd (omega arith)
code_injective enabled pw_salt e = absurd (omega arith)
code_injective enabled pw_hash e = absurd (omega arith)
code_injective token enabled e = absurd (omega arith)
code_injective token token e = refl
code_injective token pw_salt e = absurd (omega arith)
code_injective token pw_hash e = absurd (omega arith)
code_injective pw_salt enabled e = absurd (omega arith)
code_injective pw_salt token e = absurd (omega arith)
code_injective pw_salt pw_salt e = refl
code_injective pw_salt pw_hash e = absurd (omega arith)
code_injective pw_hash enabled e = absurd (omega arith)
code_injective pw_hash token e = absurd (omega arith)
code_injective pw_hash pw_salt e = absurd (omega arith)
code_injective pw_hash pw_hash e = refl

abbrev update {ℓ} : {A : Type ℓ} → (Key → A) → Key → A → Key → A
update f k v j = if code k == code j then v else f j

update_self {ℓ} : {A : Type ℓ} (f : Key → A) (k : Key) (v : A) → update f k v k ≡ v
update_self f k v = rw ((==_iff (code k) (code k)).1 refl) refl

update_ne {ℓ} : {A : Type ℓ} (f : Key → A) (k j : Key) (v : A) → k ≢ j → update f k v j ≡ f j
update_ne f k j v h =
    if_cases (λ r. r ≡ f j) (code k == code j) v (f j)
      (λ e. absurd (h (code_injective k j ((==_iff (code k) (code j)).0 e)))) (λ e. refl)

pub record Namespace : Type 0 where
  pub small : Key → Option ℕ
  pub strings : Key → Option (List ℕ)
  pub blobs : Key → Option (List ℕ)

abbrev pub empty_namespace : Namespace
empty_namespace = record { small = λ k. none; strings = λ k. none; blobs = λ k. none }

-- `opens` is what nvs_open returns.
abbrev pub auth_nvs : Bool → Nvs
auth_nvs opens = record {
  Flash = Namespace;
  nvs_open = λ f. opens;
  get_u8 = λ f k. f.small k;
  get_str = λ f k. f.strings k;
  get_blob = λ f k. f.blobs k;
  set_u8 = λ f k v. (record f { small = update f.small k (some v) }, true);
  set_str = λ f k v. (record f { strings = update f.strings k (some v) }, true);
  set_blob = λ f k v. (record f { blobs = update f.blobs k (some v) }, true);
  commit = λ f. (f, true);
}

pub auth_nvs-IsNvs : (opens : Bool) → IsNvs (auth_nvs opens)
auth_nvs-IsNvs opens = record {
  blob_self = λ f k v h. update_self f.blobs k (some v);
  blob_other = λ f k j v h. update_ne f.blobs k j (some v) h;
  str_self = λ f k v h. update_self f.strings k (some v);
  str_blob = λ f k j v. refl;
  u8_self = λ f k v h. update_self f.small k (some v);
  commit_blob = λ f k. refl;
  commit_str = λ f k. refl;
  commit_u8 = λ f k. refl;
}

abbrev pub digest : List ℕ
digest = replicate 32 7

abbrev pub sha256 : List ℕ → Option (List ℕ)
sha256 text = some digest

loop_digest : (rounds : ℕ) (tail : List ℕ) → kdf_loop sha256 rounds tail digest ≡ some digest
unfolding kdf_loop
loop_digest zero tail = refl
loop_digest (suc rounds) tail = loop_digest rounds tail

pub kdf-digest : (pw salt : List ℕ) → ltb 63 (length pw) ≡ false → kdf sha256 pw salt ≡ some digest
unfolding kdf whole_digest
kdf-digest pw salt h = rw (h, loop_digest 8191 (salt ++ pw)) refl
