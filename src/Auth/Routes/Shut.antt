-- ===== src/Auth/Routes/Shut.antt =====
-- main/auth.cpp: the routes that set a password, while the namespace cannot be opened.
use zhac_mono_core.Prelude.{
  ℕ, ◌≡◌, refl, inl, inr, true, false, ◌||◌, not, Option, List, ltb, length, arith, Bool-cases,
  Option-cases,
}
use zhac_mono_core.Auth.Lockout.{Turn}
use zhac_mono_core.Auth.Storage.{Nvs}
use zhac_mono_core.Auth.State.{Auth, failed}
use zhac_mono_core.Auth.Token.{check_request}
use zhac_mono_core.Auth.Password.{pw_min, pw_max, password_store, keep_password, persist_password}
use zhac_mono_core.Auth.Requests.{Request, Doc, gated, read_json}
use zhac_mono_core.Auth.Routes.{change_to, handle_password, password_route}

-- No password is set, the boot saw no storage, and the flash is still `f`.
unfoldable pub IsShut : {Flash : Type 0} → Auth Flash → Flash → Type 0
IsShut a f = (a.s_storage_error ≡ true) × (a.s_pw_set ≡ false) × (a.flash ≡ f)

check_request-IsShut :
    {Flash : Type 0} (a : Auth Flash) (f : Flash) (ip : ℕ) (key : Option (List ℕ))
    (first second : Turn)
    → IsShut a f
    → IsShut (check_request a ip key first second).0 f
unfolding IsShut check_request failed
check_request-IsShut a f ip key first second h = ground (arith, h)

module _ (nvs : Nvs) (sha256 : List ℕ → Option (List ℕ)) (parse : List ℕ → Option Doc)
    (f : nvs.Flash) (shut : nvs.nvs_open f ≡ false) where
  password_store-shut :
      (a : Auth nvs.Flash) (pw salt : List ℕ)
      → IsShut a f
      → password_store sha256 nvs a pw salt ≡ (a, false)
  unfolding IsShut password_store keep_password persist_password
  password_store-shut a pw salt (e, p, same) =
      let closed : nvs.nvs_open a.flash ≡ false = rw same shut in ground (arith, closed)

  change_to-shut :
      (a : Auth nvs.Flash) (npw salt rnd : List ℕ)
      → IsShut a f
      → (change_to nvs sha256 parse a npw salt rnd).0 ≡ a
  unfolding change_to
  change_to-shut a npw salt rnd h =
      let kept = password_store-shut a npw salt h in
      elim (Bool-cases (ltb (length npw) pw_min || ltb pw_max (length npw))) [
        | inl long ↦ rw (change_to, long) refl
        | inr fits ↦ rw (change_to, fits, kept) refl
      ]

  is_unset : (a : Auth nvs.Flash) → IsShut a f → not a.s_pw_set ≡ true
  unfolding IsShut
  is_unset a (e, p, same) = rw p refl

  handle_password-IsShut :
      (a : Auth nvs.Flash) (req : Request) (first second : Turn) (salt rnd : List ℕ)
      → IsShut a f
      → IsShut (handle_password nvs sha256 parse a req first second salt rnd).0 f
  unfolding handle_password
  handle_password-IsShut a req first second salt rnd h =
      let unset : not a.s_pw_set ≡ true = is_unset a h in
      elim (Option-cases (read_json parse req 320)) [
        | inl no_doc ↦ rw (handle_password, no_doc) h
        | inr (doc, found) ↦ elim (Option-cases (doc "new")) [
          | inl no_new ↦ rw (handle_password, found, no_new) h
          | inr (npw, new) ↦
              rw (handle_password, found, new, unset, change_to-shut a npw salt rnd h) h
        ]
      ]

  pub password_route-IsShut :
      (a : Auth nvs.Flash) (req : Request) (g1 g2 first second : Turn) (salt rnd : List ℕ)
      → IsShut a f
      → IsShut (password_route nvs sha256 parse a req g1 g2 first second salt rnd).0 f
  unfolding password_route gated
  password_route-IsShut a req g1 g2 first second salt rnd h =
      let gate = check_request-IsShut a f req.peer_ipv4 req.api_key g1 g2 h in
      elim (Bool-cases (check_request a req.peer_ipv4 req.api_key g1 g2).1) [
        | inl let_in ↦ rw let_in (
            handle_password-IsShut (check_request a req.peer_ipv4 req.api_key g1 g2).0 req first
              second salt rnd gate)
        | inr no_key ↦ rw no_key gate
      ]
