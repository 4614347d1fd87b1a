-- ===== src/Auth/Password/Round.antt =====
-- main/auth.cpp: a password that was stored is accepted.
use zhac_mono_core.Prelude.{
  ℕ, ◌≤◌, ◌<◌, ◌≡◌, refl, inl, inr, ◌↔◌, ap, true, false, Option, none, some, List, ltb, length,
  Option-cases, Bool-cases, arith, default,
}
use zhac_mono_core.Auth.Lockout.{Turn, locked}
use zhac_mono_core.Auth.Storage.{Nvs}
use zhac_mono_core.Auth.State.{Auth}
use zhac_mono_core.Auth.Token.Gate.{diff_from_lem}
use zhac_mono_core.Auth.Password.{
  whole_digest, kdf, persist_password, keep_password, password_store, is_hash, password_matches,
  password_check,
}

whole : (o : Option (List ℕ)) (h : List ℕ) → whole_digest o ≡ some h → length h ≡ 32
unfolding whole_digest
whole none h e = ground arith
whole (some g) h e =
    let n : length g ≡ 32 = ground arith in let same : g ≡ h = ground arith in rw same at n

pub kdf-length :
    (sha256 : List ℕ → Option (List ℕ)) (pw salt h : List ℕ)
    → kdf sha256 pw salt ≡ some h
    → length h ≡ 32
unfolding kdf
kdf-length sha256 pw salt h e = elim (Bool-cases (ltb 63 (length pw))) [
  | inl b ↦ ground arith
  | inr b ↦ whole _ h (rw b at e)
]

module _ (sha256 : List ℕ → Option (List ℕ)) where
  is_hash_lem :
      (o : Option (List ℕ)) (s_hash : List ℕ)
      → ((h : List ℕ) → o ≡ some h → length h ≡ 32)
      → length s_hash ≡ 32
      → (is_hash o s_hash ≡ true) ↔ (o ≡ some s_hash)
  unfolding is_hash
  is_hash_lem none s_hash f l = (λ h. ground arith, λ h. ground arith)
  is_hash_lem (some h) s_hash f l =
      let (to, from) = diff_from_lem h s_hash (f h refl) l in
      (
        λ t. ap some (to (ground arith)),
        λ q. let z = from (ap (λ o. default o s_hash) q) in rw z refl,
      )

  -- With a password set, and a stored hash of 32 bytes.
  pub password_matches_lem :
      {Flash : Type 0} (a : Auth Flash) (pw : List ℕ)
      → a.s_pw_set ≡ true
      → length a.s_hash ≡ 32
      → (password_matches sha256 a pw ≡ true)
        ↔ ((0 < length pw) × (kdf sha256 pw a.s_salt ≡ some a.s_hash))
  unfolding password_matches
  password_matches_lem a pw on l =
      let (to, from) =
        is_hash_lem (kdf sha256 pw a.s_salt) a.s_hash (kdf-length sha256 pw a.s_salt) l in
      (
        λ h.
            let (n, k) : (0 < length pw) × (is_hash (kdf sha256 pw a.s_salt) a.s_hash ≡ true) =
              ground arith in
            (n, to k),
        λ (n, q). let k = from q in ground arith,
      )

  -- For a peer that is not locked out.
  pub password_check_free :
      {Flash : Type 0} (a : Auth Flash) (ip : ℕ) (pw : List ℕ) (first second : Turn)
      → locked a.s_buckets ip first ≡ false
      → (password_check sha256 a ip pw first second).1 ≡ password_matches sha256 a pw
  unfolding password_check
  password_check_free a ip pw first second free = elim (Bool-cases (password_matches sha256 a pw)) [
    | inl e ↦ simp (free, e)
    | inr e ↦ simp (free, e)
  ]

  pub password_check_pass :
      {Flash : Type 0} (a : Auth Flash) (ip : ℕ) (pw : List ℕ) (first second : Turn)
      → locked a.s_buckets ip first ≡ false
      → password_matches sha256 a pw ≡ true
      → password_check sha256 a ip pw first second ≡ (a, true)
  unfolding password_check
  password_check_pass a ip pw first second free e = simp (free, e)

  module _ (nvs : Nvs) where
    pub stored :
        (a : Auth nvs.Flash) (pw salt : List ℕ)
        → (password_store sha256 nvs a pw salt).1 ≡ true
        → (hash : List ℕ) × (8 ≤ length pw)
          × (length pw ≤ 63)
          × (kdf sha256 pw salt ≡ some hash)
          × ((persist_password nvs a.flash salt hash).1 ≡ true)
          × ((password_store sha256 nvs a pw salt).0 ≡ record a {
            flash = (persist_password nvs a.flash salt hash).0;
            s_salt = salt;
            s_hash = hash;
            s_pw_set = true;
          })
    unfolding password_store keep_password
    stored a pw salt h = elim (Option-cases (kdf sha256 pw salt)) [
      | inl e ↦ absurd (let k = rw e at h in ground arith)
      | inr (hash, e) ↦
          let k = rw e at h in
          (hash, ground arith, ground arith, e, ground arith, rw e (ground arith))
    ]

    -- A password that password_store accepts has 8 to 63 characters and is at once the password: for a peer that is not
    -- locked out, password_check accepts just the texts, not empty, of the same hash under the salt that was stored, this
    -- one among them; it changes nothing then.
    pub password_check-store :
        (a : Auth nvs.Flash) (pw salt other : List ℕ) (ip : ℕ) (first second : Turn)
        → (password_store sha256 nvs a pw salt).1 ≡ true
        → locked a.s_buckets ip first ≡ false
        → let b = (password_store sha256 nvs a pw salt).0 in
          (8 ≤ length pw)
          × (length pw ≤ 63)
          × (password_check sha256 b ip pw first second ≡ (b, true))
          × (((password_check sha256 b ip other first second).1 ≡ true)
              ↔ ((0 < length other) × (kdf sha256 other salt ≡ kdf sha256 pw salt)))
    password_check-store a pw salt other ip first second h free =
        let (hash, lo, hi, k, saved, after) = stored a pw salt h in
        let b : Auth nvs.Flash = record a {
          flash = (persist_password nvs a.flash salt hash).0;
          s_salt = salt;
          s_hash = hash;
          s_pw_set = true;
        } in
        let l = kdf-length sha256 pw salt hash k in
        let mine = (password_matches_lem b pw refl l).1 (omega arith, k) in
        let (to, from) = password_matches_lem b other refl l in
        let same = password_check_free b ip other first second free in
        rw after
          (lo, hi, password_check_pass b ip pw first second free mine, rw (same, k) (to, from))
