-- ===== src/Scripts/Path.antt =====
-- main/api_scripts.cpp: the paths that name a script.
use zhac_mono_core.Prelude.{
  ℕ, ◌≡◌, ◌≢◌, ◌↔◌, ◌<◌, refl, ◌∙◌, ap, sym, subst, inl, inr, Bool, true, false, ◌||◌, Option, some,
  List, [], ◌∷◌, ◌++◌, ◌==◌, ==_iff, leb, length, arith, Bool-cases, Option-cases,
}
use zhac_mono_core.Prelude.Text.{bytes}
use zhac_mono_core.Document.{same}
use zhac_mono_core.Scripts.{uri_after_prefix, at_slash, action_of, parse_name}

pub HasNoSlash : List ℕ → Type 0
HasNoSlash [] = Unit
HasNoSlash (c ∷ s) = (c ≢ b'/') × HasNoSlash s

-- The suffix of a route.
pub data Route : Type 0 where
  item run check : Route

pub suffix : Route → List ℕ
suffix item = []
suffix run = bytes "/run"
suffix check = bytes "/check"

pub is_run : Route → Bool
is_run run = true
is_run item = false
is_run check = false

pub is_check : Route → Bool
is_check check = true
is_check item = false
is_check run = false

uri_after_prefix-append : (ps s : List ℕ) → uri_after_prefix (ps ++ s) ps ≡ some s
unfolding uri_after_prefix
uri_after_prefix-append [] s = refl
uri_after_prefix-append (p ∷ ps) s = ground (arith, uri_after_prefix-append ps s)

uri_after_prefix-some : (uri ps s : List ℕ) → uri_after_prefix uri ps ≡ some s → uri ≡ ps ++ s
unfolding uri_after_prefix
uri_after_prefix-some uri [] s e = cc
uri_after_prefix-some [] (p ∷ ps) s e = absurd (cc)
uri_after_prefix-some (c ∷ uri) (p ∷ ps) s e = elim (Bool-cases (c == p)) [
  | inl h ↦
      let here : c ≡ p = (==_iff c p).0 h in
      let rest : uri ≡ ps ++ s = uri_after_prefix-some uri ps s ground (arith, h) in cc
  | inr h ↦ absurd (ground (arith, h))
]

at_slash-append : (s : List ℕ) (r : Route) → HasNoSlash s → at_slash (s ++ suffix r) ≡ (s, suffix r)
unfolding at_slash HasNoSlash suffix
at_slash-append [] item h = refl
at_slash-append [] run h = refl
at_slash-append [] check h = refl
at_slash-append (c ∷ s) r (ne, h) = ground (arith, at_slash-append s r h)

at_slash-split : (s : List ℕ) → (s ≡ (at_slash s).0 ++ (at_slash s).1) × HasNoSlash (at_slash s).0
unfolding at_slash HasNoSlash
at_slash-split [] = (refl, tt)
at_slash-split (c ∷ s) = elim (Bool-cases (c == b'/')) [
  | inl h ↦ rw (at_slash, h) (refl, tt)
  | inr h ↦
      let ne : c ≢ b'/' = λ e. ground (arith, h, e) in
      let (split, none_here) = at_slash-split s in
      rw (at_slash, h) (ap (λ t. c ∷ t) split, (ne, none_here))
]

same-eq : (a b : List ℕ) → same a b ≡ true → a ≡ b
unfolding same
same-eq [] [] e = refl
same-eq [] (y ∷ ys) e = absurd (cc)
same-eq (x ∷ xs) [] e = absurd (cc)
same-eq (x ∷ xs) (y ∷ ys) e = elim (Bool-cases (x == y)) [
  | inl h ↦
      let here : x ≡ y = (==_iff x y).0 h in
      let rest : xs ≡ ys = same-eq xs ys ground (arith, h) in cc
  | inr h ↦ absurd (ground (arith, h))
]

action_of-suffix : (r : Route) → action_of (suffix r) ≡ some (is_run r, is_check r)
unfolding action_of suffix is_run is_check same
action_of-suffix item = refl
action_of-suffix run = refl
action_of-suffix check = refl

flags_injective : (r q : Route) → (is_run r ≡ is_run q) → (is_check r ≡ is_check q) → r ≡ q
unfolding is_run is_check
flags_injective item item e f = refl
flags_injective item run e f = absurd (cc)
flags_injective item check e f = absurd (cc)
flags_injective run item e f = absurd (cc)
flags_injective run run e f = refl
flags_injective run check e f = absurd (cc)
flags_injective check item e f = absurd (cc)
flags_injective check run e f = absurd (cc)
flags_injective check check e f = refl

is_one :
    (end : List ℕ) (q r : Route)
    → end ≡ suffix q
    → action_of end ≡ some (is_run r, is_check r)
    → end ≡ suffix r
is_one end q r h e =
    let same_flags : ◌≡◌ {A = Option (Bool × Bool)} (some (is_run q, is_check q))
        (some (is_run r, is_check r)) =
      sym (action_of-suffix q) ∙ sym (ap action_of h) ∙ e in
    let one : is_run q ≡ is_run r = cc in
    let two : is_check q ≡ is_check r = cc in h ∙ ap suffix (flags_injective q r one two)

action_of-some :
    (end : List ℕ) (r : Route) → action_of end ≡ some (is_run r, is_check r) → end ≡ suffix r
unfolding action_of suffix is_run is_check
action_of-some [] item e = refl
action_of-some [] run e = absurd (cc)
action_of-some [] check e = absurd (cc)
action_of-some (c ∷ s) r e = elim (Bool-cases (same (c ∷ s) (bytes "/run"))) [
  | inl h ↦ is_one (c ∷ s) run r (same-eq (c ∷ s) (bytes "/run") h) e
  | inr h ↦ elim (Bool-cases (same (c ∷ s) (bytes "/check"))) [
    | inl k ↦ is_one (c ∷ s) check r (same-eq (c ∷ s) (bytes "/check") k) e
    | inr k ↦ absurd (ground (arith, h, k))
  ]
]

path_read :
    (cap : ℕ) (uri name : List ℕ) (r : Route)
    → (uri ≡ bytes "/api/scripts/" ++ (name ++ suffix r))
      × HasNoSlash name
      × (0 < length name)
      × (length name < cap)
    → parse_name cap uri ≡ some (name, is_run r, is_check r)
unfolding parse_name
path_read cap uri name r (e, slash, short, fits) =
    let cut : uri_after_prefix uri (bytes "/api/scripts/") ≡ some (name ++ suffix r) =
      ap (λ u. uri_after_prefix u (bytes "/api/scripts/")) e
      ∙ uri_after_prefix-append (bytes "/api/scripts/") (name ++ suffix r) in
    let ends : (length name == 0 || leb cap (length name)) ≡ false = ground arith in
    rw
      (
        parse_name,
        cut,
        at_slash-append name r slash,
        action_of-suffix r,
        at_slash-append name r slash,
        ends,
      )
      refl

read_path :
    (cap : ℕ) (uri name : List ℕ) (r : Route)
    → parse_name cap uri ≡ some (name, is_run r, is_check r)
    → (uri ≡ bytes "/api/scripts/" ++ (name ++ suffix r))
      × HasNoSlash name
      × (0 < length name)
      × (length name < cap)
unfolding parse_name
read_path cap uri name r e = elim (Option-cases (uri_after_prefix uri (bytes "/api/scripts/"))) [
  | inl h ↦ absurd (ground (arith, h))
  | inr (rest, h) ↦ elim (Option-cases (action_of (at_slash rest).1)) [
    | inl a ↦ absurd (ground (arith, h, a))
    | inr (flags, a) ↦
        elim (Bool-cases (length (at_slash rest).0 == 0 || leb cap (length (at_slash rest).0))) [
          | inl long ↦ absurd (ground (arith, h, a, long))
          | inr fits ↦
              let now : parse_name cap uri ≡ some ((at_slash rest).0, flags.0, flags.1) =
                rw (parse_name, h, a, fits) refl in
              let got : ◌≡◌ {A = Option (List ℕ × Bool × Bool)}
                  (some ((at_slash rest).0, flags.0, flags.1)) (some (name, is_run r, is_check r)) =
                sym now ∙ e in
              let same_name : (at_slash rest).0 ≡ name = cc in
              let same_flags : flags ≡ (is_run r, is_check r) = cc in
              let end : (at_slash rest).1 ≡ suffix r =
                action_of-some (at_slash rest).1 r (a ∙ ap some same_flags) in
              let (split, free) = at_slash-split rest in
              (
                uri_after_prefix-some uri (bytes "/api/scripts/") rest h
                    ∙ ap (λ t. bytes "/api/scripts/" ++ t)
                        (split
                          ∙ ap (λ t. t ++ (at_slash rest).1) same_name
                          ∙ ap (λ t. name ++ t) end),
                subst HasNoSlash same_name free,
                ground (arith, same_name, fits),
                ground (arith, same_name, fits),
              )
        ]
  ]
]

-- A path is read as a name with an action exactly where it is "/api/scripts/", the name, and the action's suffix, which is
-- nothing, "/run" or "/check"; the name has no slash, has a byte at least, and fits a buffer of `cap` bytes with its NUL.
pub parse_name-described :
    (cap : ℕ) (uri name : List ℕ) (r : Route)
    → (parse_name cap uri ≡ some (name, is_run r, is_check r)) ↔ (
        (uri ≡ bytes "/api/scripts/" ++ (name ++ suffix r))
        × HasNoSlash name
        × (0 < length name)
        × (length name < cap))
parse_name-described cap uri name r = (read_path cap uri name r, path_read cap uri name r)
