-- ===== src/Scripts.antt =====
-- main/api_scripts.cpp: the script that a path names. Scripts/Path says which paths are read.
pub mod Path
use zhac_mono_core.Prelude.{
  ℕ, Bool, true, false, ◌&&◌, ◌||◌, Option, none, some, List, [], ◌∷◌, ◌==◌, leb, if◌then◌else◌,
  length,
}
use zhac_mono_core.Prelude.Text.{bytes}
use zhac_mono_core.Document.{same}

-- strncmp(uri, prefix, strlen(prefix)), and what follows the prefix.
unfoldable pub uri_after_prefix : List ℕ → List ℕ → Option (List ℕ)
uri_after_prefix uri [] = some uri
uri_after_prefix [] (p ∷ ps) = none
uri_after_prefix (c ∷ uri) (p ∷ ps) =
    let rest = uri_after_prefix uri ps in if c == p then rest else none

-- strchr(rest, '/'): what stands before the slash, and from it on, [] where there is none.
unfoldable pub at_slash : List ℕ → List ℕ × List ℕ
at_slash [] = ([], [])
at_slash (c ∷ s) = let rest = at_slash s in if c == b'/' then ([], c ∷ s) else (c ∷ rest.0, rest.1)

-- is_run and is_check; none is a bad path.
unfoldable pub action_of : List ℕ → Option (Bool × Bool)
action_of end =
    if length end == 0
    then some (false, false)
    else if same end (bytes "/run")
    then some (true, false)
    else if same end (bytes "/check")
    then some (false, true)
    else none

unfoldable pub parse_name : ℕ → List ℕ → Option (List ℕ × Bool × Bool)
parse_name cap uri = elim (uri_after_prefix uri (bytes "/api/scripts/")) [
  | none ↦ none
  | some rest ↦ elim (action_of (at_slash rest).1) [
    | none ↦ none
    | some (run, check) ↦
        let name = (at_slash rest).0 in
        if length name == 0 || leb cap (length name) then none else some (name, run, check)
  ]
]
