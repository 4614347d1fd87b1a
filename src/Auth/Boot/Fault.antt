-- ===== src/Auth/Boot/Fault.antt =====
-- main/auth.cpp: a boot without storage.
use zhac_mono_core.Prelude.{
  ℕ, ◌*◌, ◌≡◌, refl, ◌≢◌, ◌∙◌, ap, inl, inr, Bool, true, false, Option, some, List, [], ◌∷◌, length,
  arith,
}
use zhac_mono_core.Auth.Lockout.{Turn}
use zhac_mono_core.Auth.Storage.{Nvs}
use zhac_mono_core.Auth.State.{Auth, call}
use zhac_mono_core.Auth.Token.{new_token, check_request}
use zhac_mono_core.Auth.Token.Gate.{Verdict, check_request-Verdict}
use zhac_mono_core.Auth.Requests.{Request, Doc, reply}
use zhac_mono_core.Auth.Routes.{handle_setup, password_route}
use zhac_mono_core.Auth.Routes.Shut.{IsShut, password_route-IsShut}
use zhac_mono_core.Auth.Boot.{powered_on, storage_fault, auth_init}
use zhac_mono_core.Auth.Boot.Restart.{new_token-length}

kept_out :
    {Flash : Type 0} (a : Auth Flash) (ip : ℕ) (key : Option (List ℕ)) (first second : Turn)
    → a.s_enabled ≡ true
    → length a.s_token ≡ 32
    → key ≢ some a.s_token
    → (check_request a ip key first second).1 ≡ false
unfolding Verdict
kept_out a ip key first second on l ne = elim (check_request-Verdict a ip key first second on l) [
  | inl (e, free, k) ↦ absurd (ne k)
  | inr (inl (e, shut)) ↦ ap (λ q. q.1) e
  | inr (inr (e, free, k)) ↦ ap (λ q. q.1) e
]

-- A request to /api/auth/setup, with whether the window is open and the random salt, or to /api/auth/password, with the turns
-- of the gate, the turns of the check, the salt and the bytes of a new token.
pub data Attempt : Type 0 where
  setup : Bool → Request → List ℕ → Attempt
  change : Request → Turn → Turn → Turn → Turn → List ℕ → List ℕ → Attempt

module _ (nvs : Nvs) (sha256 : List ℕ → Option (List ℕ)) (parse : List ℕ → Option Doc) where
  pub attempt : Auth nvs.Flash → Attempt → Auth nvs.Flash
  attempt a (setup setup_open req salt) = (handle_setup nvs sha256 parse a setup_open req salt).0
  attempt a (change req g1 g2 first second salt rnd) =
      (password_route nvs sha256 parse a req g1 g2 first second salt rnd).0

  -- The state after these requests, the first first.
  pub attempts : Auth nvs.Flash → List Attempt → Auth nvs.Flash
  attempts a [] = a
  attempts a (t ∷ ts) = attempts (attempt a t) ts

  attempt-IsShut :
      (a : Auth nvs.Flash) (f : nvs.Flash) (t : Attempt)
      → nvs.nvs_open f ≡ false
      → IsShut a f
      → IsShut (attempt a t) f
  unfolding attempt handle_setup IsShut
  attempt-IsShut a f (setup setup_open req salt) shut (e, p, same) = ground (arith, e, p, same)
  attempt-IsShut a f (change req g1 g2 first second salt rnd) shut h =
      password_route-IsShut nvs sha256 parse f shut a req g1 g2 first second salt rnd h

  attempts-IsShut :
      (a : Auth nvs.Flash) (f : nvs.Flash) (ts : List Attempt)
      → nvs.nvs_open f ≡ false
      → IsShut a f
      → IsShut (attempts a ts) f
  unfolding attempts
  attempts-IsShut a f [] shut h = h
  attempts-IsShut a f (t ∷ ts) shut h =
      attempts-IsShut (attempt a t) f ts shut (attempt-IsShut a f t shut h)

  -- Where the namespace cannot be opened, the boot fails closed: sign-in is on and no password is set, the HTTP gate lets in
  -- nobody without the token made from the boot's 16 random bytes, and the setup route answers 503. After any requests to the
  -- setup route and to the password route, with the token or without it, still no password is set and the flash is as it was.
  pub auth_init-fault :
      (def setup_open : Bool) (f : nvs.Flash) (rnd salt : List ℕ) (req : Request)
      (first second : Turn) (ts : List Attempt)
      → nvs.nvs_open f ≡ false
      → length rnd ≡ 16
      → req.api_key ≢ some (new_token rnd)
      → let b = auth_init nvs def f rnd in
        (b.s_enabled ≡ true)
        × (b.s_pw_set ≡ false)
        × ((check_request b req.peer_ipv4 req.api_key first second).1 ≡ false)
        × (handle_setup nvs sha256 parse b setup_open req salt
            ≡ (b, reply (some "503 Service Unavailable") "{\"error\":\"storage_error\"}"))
        × ((attempts b ts).s_pw_set ≡ false)
        × ((attempts b ts).flash ≡ f)
  unfolding auth_init storage_fault call handle_setup IsShut powered_on
  auth_init-fault def setup_open f rnd salt req first second ts shut l ne =
      let after =
        attempts-IsShut (storage_fault nvs (powered_on nvs f) rnd) f ts shut (refl, refl, refl) in
      rw shut (
        refl,
        refl,
        kept_out (storage_fault nvs (powered_on nvs f) rnd) req.peer_ipv4 req.api_key first second
            refl (new_token-length rnd ∙ ap (λ k. 2 * k) l) ne,
        refl,
        after.1,
        after.2,
      )
