-- ===== src/LogRing/Body.antt =====
-- main/log_ring.cpp: the JSON body of one line for the live sinks.
pub mod Whole
use zhac_mono_core.Prelude.{
  ℕ, ◌+◌, Bool, true, false, Option, none, some, List, [], ◌∷◌, ◌++◌, if◌then◌else◌, leb, length,
}
use zhac_mono_core.Prelude.Text.{bytes, decimal}
use zhac_mono_core.LogRing.{escaped}

-- emit_escaped, on the text so far; none is false.
unfoldable pub emit_escaped : ℕ → List ℕ → List ℕ → Option (List ℕ)
emit_escaped cap out [] = some out
emit_escaped cap out (c ∷ s) = elim (leb cap (length out + 6)) [
  | true ↦ none
  | false ↦ emit_escaped cap (out ++ escaped c) s
]

unfoldable pub body_head : ℕ → List ℕ → List ℕ
body_head ts src =
    bytes "{\"ts\":" ++ (decimal ts ++ (bytes ",\"src\":\"" ++ (src ++ bytes "\",\"tag\":\"")))

unfoldable pub body_msg : ℕ → List ℕ → Option (List ℕ) → Option (List ℕ)
body_msg cap msg none = none
body_msg cap msg (some out) =
    let rest = emit_escaped cap (out ++ bytes "\",\"msg\":\"") msg in
    if leb cap (length out + 10) then none else rest

unfoldable pub body_end : ℕ → Option (List ℕ) → Option (List ℕ)
body_end cap none = none
body_end cap (some out) = if leb cap (length out + 3) then none else some (out ++ bytes "\"}")

-- The text before its NUL; none is a return of 0. `ts` is time(nullptr) in uint32_t.
unfoldable pub build_body_json : ℕ → ℕ → List ℕ → List ℕ → List ℕ → Option (List ℕ)
build_body_json cap ts src tag msg =
    let head = body_head ts src in
    if leb cap (length head)
    then none
    else body_end cap (body_msg cap msg (emit_escaped cap head tag))
