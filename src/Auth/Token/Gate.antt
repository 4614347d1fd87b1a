-- ===== src/Auth/Token/Gate.antt =====
-- main/auth.cpp: whom the gate lets in.
use zhac_mono_core.Prelude.{
  ℕ, zero, suc, ◌+◌, ◌≤◌, ◌<◌, ◌≡◌, refl, ap, ◌≢◌, ◌⊎◌, inl, inr, ◌↔◌, Bool, true, false, Option,
  none, some, List, [], ◌∷◌, length, get_or, Bool-cases, arith, subst, default,
}
use zhac_mono_core.Prelude.Xor.{bit_or-bit_xor_zero, bit_or-bit_xor_self}
use zhac_mono_core.Auth.Lockout.{Turn, locked}
use zhac_mono_core.Auth.State.{Auth, failed}
use zhac_mono_core.Auth.Token.{diff_from, token_matches, accepted, check_request, auth_check_token}
use Prim.Native.Nat.{bit_or, bit_xor}

diff_zero :
    (rounds i : ℕ) (c t : List ℕ) (diff : ℕ)
    → diff_from rounds i c t diff ≡ 0
    → (diff ≡ 0) × ((j : ℕ) → i ≤ j → j < i + rounds → get_or c j 0 ≡ get_or t j 0)
unfolding diff_from
diff_zero zero i c t diff h = (h, λ j lo hi. absurd (omega arith))
diff_zero (suc rounds) i c t diff h =
    let (e, rest) =
      diff_zero rounds (suc i) c t (bit_or diff (bit_xor (get_or c i 0) (get_or t i 0))) h in
    let (d, same) = bit_or-bit_xor_zero diff (get_or c i 0) (get_or t i 0) e in
    (
      d,
      λ j lo hi.
          let split : (i ≡ j) ⊎ (suc i ≤ j) = omega arith in
          elim split [
            | inl q ↦ subst (λ (n : ℕ). get_or c n 0 ≡ get_or t n 0) q same
            | inr l ↦ rest j l (omega arith)
          ],
    )

diff_self : (rounds i : ℕ) (t : List ℕ) → diff_from rounds i t t 0 ≡ 0
unfolding diff_from
diff_self zero i t = refl
diff_self (suc rounds) i t = rw (bit_or-bit_xor_self (get_or t i 0)) (diff_self rounds (suc i) t)

same_bytes :
    (c t : List ℕ)
    → length c ≡ length t
    → ((j : ℕ) → j < length c → get_or c j 0 ≡ get_or t j 0)
    → c ≡ t
same_bytes [] [] l h = refl
same_bytes [] (y ∷ t) l h = absurd (omega arith)
same_bytes (x ∷ c) [] l h = absurd (omega arith)
same_bytes (x ∷ c) (y ∷ t) l h =
    rw (h 0 (omega arith), same_bytes c t (omega arith) (λ j k. h (suc j) (omega arith))) refl

-- The comparison without an early exit is equality of the 32 bytes: it is 0 just for equal texts of that length.
pub diff_from_lem :
    (c t : List ℕ) → length c ≡ 32 → length t ≡ 32 → (diff_from 32 0 c t 0 ≡ 0) ↔ (c ≡ t)
diff_from_lem c t lc lt' = (
  λ h.
      same_bytes c t (omega arith)
        (λ j k. (diff_zero 32 0 c t 0 h).1 j (omega arith) (omega arith)),
  λ e. rw e (diff_self 32 0 t),
)

pub accepted_lem :
    (key : Option (List ℕ)) (t : List ℕ) → length t ≡ 32 → (accepted key t ≡ true) ↔ (key ≡ some t)
unfolding accepted token_matches
accepted_lem none t l = (λ h. ground arith, λ h. ground arith)
accepted_lem (some key) t l = (
  λ h.
      let (n, z) : (length key ≡ 32) × (diff_from 32 0 key t 0 ≡ 0) = ground arith in
      ap some ((diff_from_lem key t n l).0 z),
  λ e. let same : key ≡ t = ap (λ o. default o t) e in rw (same, l, diff_self 32 0 t) refl,
)

-- What a check may return and leave behind: it lets in, on the token of a peer that is not locked out, and changes nothing;
-- or it refuses, a locked peer without a trace, and else with one failure more in the table.
unfoldable pub Verdict :
    {Flash : Type 0} → Auth Flash → ℕ → Option (List ℕ) → Turn → Turn → Auth Flash × Bool → Type 0
Verdict a ip key first second out =
    ((out ≡ (a, true)) × (locked a.s_buckets ip first ≡ false) × (key ≡ some a.s_token))
    ⊎ ((out ≡ (a, false)) × (locked a.s_buckets ip first ≡ true))
    ⊎ ((out ≡ (failed a ip second, false))
        × (locked a.s_buckets ip first ≡ false)
        × (key ≢ some a.s_token))

-- With sign-in on and a token of 32 characters, the HTTP gate lets a request in exactly when its X-Api-Key is the token and
-- its peer is not locked out; a wrong key is recorded as a failure of the peer, a locked peer leaves no trace.
pub check_request-Verdict :
    {Flash : Type 0} (a : Auth Flash) (ip : ℕ) (key : Option (List ℕ)) (first second : Turn)
    → a.s_enabled ≡ true
    → length a.s_token ≡ 32
    → Verdict a ip key first second (check_request a ip key first second)
unfolding Verdict check_request
check_request-Verdict a ip key first second on l = elim (Bool-cases (locked a.s_buckets ip first)) [
  | inl e ↦ inr (inl (simp (on, e), e))
  | inr e ↦ elim (Bool-cases (accepted key a.s_token)) [
    | inl k ↦ inl (simp (on, e, k), e, (accepted_lem key a.s_token l).0 k)
    | inr k ↦ inr (
        inr (
          simp (on, e, k),
          e,
          λ q. absurd (let t = (accepted_lem key a.s_token l).1 q in ground arith),
        ))
  ]
]

-- The WebSocket check decides as the HTTP gate does for a peer at address 0, whether sign-in is on or off.
pub auth_check_token-check_request :
    {Flash : Type 0} (a : Auth Flash) (key : Option (List ℕ)) (first second : Turn)
    → auth_check_token a key first second ≡ check_request a 0 key first second
unfolding auth_check_token check_request
auth_check_token-check_request a key first second = refl
