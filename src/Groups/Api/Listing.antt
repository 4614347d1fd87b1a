-- ===== src/Groups/Api/Listing.antt =====
-- main/api_groups.cpp, group_list_json: which rows the list carries.
use zhac_mono_core.Prelude.{
  ℕ, zero, suc, ◌+◌, ◌-◌, ◌*◌, ◌≤◌, ◌<◌, ◌≡◌, refl, ◌∙◌, sym, inl, inr, true, false, List, [], ◌∷◌,
  ◌++◌, arith, length, length-append, length-replicate, append_assoc, append-nil, take_all,
  replicate, get_or, All, ltb, ◌==◌, if◌then◌else◌, Bool-cases, min, leb,
}
use zhac_mono_core.Prelude.Text.{bytes, hex_digit_upper, hex_fixed, decimal}
use zhac_mono_core.Prelude.Hex.Printed.{length-hex_fixed}
use zhac_mono_core.JsonWriter.Escape.{escaped}
use zhac_mono_core.Groups.Storage.{GrpMember, GrpRecord, grp_max_members}
use zhac_mono_core.Groups.{member_text, head_text, no_member}
use zhac_mono_core.Groups.Row.{members_text, row_text, rest_text, grp_to_json-row}
use zhac_mono_core.Groups.Api.{row_of, list_from, list_text}

-- The row that a buffer of `cap` bytes yields is the group's whole row where that has at most `cap` bytes, and empty
-- where it has more.
pub row_of_lem :
    (r : GrpRecord) (cap : ℕ)
    → row_of r cap ≡ (if leb (length (row_text r)) cap then row_text r else [])
unfolding row_of
row_of_lem r cap = elim (grp_to_json-row r (replicate cap 0) cap (length-replicate cap 0)) [
  | inl (fits, n, whole) ↦
      let t : leb (length (row_text r)) cap ≡ true = ground arith in rw (t, n) whole
  | inr (over, n) ↦ let f : leb (length (row_text r)) cap ≡ false = ground arith in rw (f, n) refl
]

member-le-length : (m : GrpMember) → 35 ≤ length (member_text m)
unfolding member_text
member-le-length m =
    let digits = hex_fixed hex_digit_upper 16 m.ieee in
    let tail = decimal m.ep ++ bytes "}" in
    omega (
      arith,
      length-append (bytes "{\"ieee\":\"0x") (digits ++ (bytes "\",\"ep\":" ++ tail)),
      length-append digits (bytes "\",\"ep\":" ++ tail),
      length-append (bytes "\",\"ep\":") tail,
      length-append (decimal m.ep) (bytes "}"),
      length-hex_fixed hex_digit_upper 16 m.ieee,
    )

-- With a comma before each but the first.
members-le-length :
    (ms : List GrpMember) (i rounds : ℕ)
    → 36 * rounds ≤ length (members_text ms i rounds) + (if i == 0 then 1 else 0)
unfolding members_text
members-le-length ms i zero = omega arith
members-le-length ms i (suc rounds) =
    let m = member_text (get_or ms i no_member) in
    let rest = members_text ms (i + 1) rounds in
    let comma : List ℕ = if i == 0 then [] else b',' ∷ [] in
    let before : 1 ≤ length comma + (if i == 0 then 1 else 0) = ground arith in
    let later : ◌≡◌ {A = ℕ} (if i + 1 == 0 then 1 else 0) 0 = ground arith in
    omega (
      arith,
      before,
      later,
      length-append comma (m ++ rest),
      length-append m rest,
      member-le-length (get_or ms i no_member),
      members-le-length ms (i + 1) rounds,
    )

-- A group of many members has no row in a small buffer, whatever its name: the row's 36 bytes for each member, and 29
-- besides, are over the buffer. So it is with seven members in the 256 bytes of the list, and with fourteen in the
-- 512 bytes that the WebSocket commands give.
pub row_of-crowded :
    (r : GrpRecord) (cap : ℕ)
    → r.member_count ≤ 16
    → cap < 36 * r.member_count + 29
    → row_of r cap ≡ []
row_of-crowded r cap few many =
    let n = min r.member_count grp_max_members in
    let all_of_them : n ≡ r.member_count = ground arith in
    let texts = members_text r.members 0 n in
    let opening = bytes "\",\"members\":[" ++ (texts ++ bytes "]}") in
    let size : cap < length (row_text r) =
      unfold row_text rest_text head_text in
      omega (
        arith,
        all_of_them,
        length-append (head_text r.id) (escaped r.name 32 ++ opening),
        length-append (bytes "{\"id\":") (decimal r.id ++ bytes ",\"name\":\""),
        length-append (decimal r.id) (bytes ",\"name\":\""),
        length-append (escaped r.name 32) opening,
        length-append (bytes "\",\"members\":[") (texts ++ bytes "]}"),
        length-append texts (bytes "]}"),
        members-le-length r.members 0 n,
      ) in
    let long : leb (length (row_text r)) cap ≡ false = ground arith in
    row_of_lem r cap ∙ rw long refl

-- The rows from index `i` on, a comma before each but the first.
unfoldable pub joined : ℕ → List GrpRecord → List ℕ
joined i [] = []
joined i (r ∷ rs) = (if i == 0 then [] else bytes ",") ++ (row_text r ++ joined (i + 1) rs)

list_from-joined :
    (cap i : ℕ) (rs : List GrpRecord) (out : List ℕ)
    → All (λ r. length (row_text r) ≤ 256) rs
    → length out + length (joined i rs) < cap
    → list_from cap i rs out ≡ out ++ joined i rs
unfolding list_from joined
list_from-joined cap i [] out small fits = sym (append-nil out)
list_from-joined cap i (r ∷ rs) out (s, small) fits =
    let put = if i == 0 then out else out ++ bytes "," in
    let comma = if i == 0 then [] else bytes "," in
    let rest = joined (i + 1) rs in
    let started : put ≡ out ++ comma = elim (Bool-cases (i == 0)) [
      | inl e ↦ rw e (sym (append-nil out))
      | inr e ↦ rw e refl
    ] in
    let small_row : leb (length (row_text r)) 256 ≡ true = ground arith in
    let whole : row_of r 256 ≡ row_text r = row_of_lem r 256 ∙ rw small_row refl in
    let size : length out + length comma + length (row_text r) + length rest < cap =
      omega (arith, length-append comma (row_text r ++ rest), length-append (row_text r) rest) in
    let here : ltb (length out) cap ≡ true = ground arith in
    let there : ltb (length (out ++ comma) + length (row_text r)) cap ≡ true =
      ground (arith, length-append out comma) in
    let later =
      list_from-joined cap (i + 1) rs ((out ++ comma) ++ row_text r) small
        (omega (arith, length-append (out ++ comma) (row_text r), length-append out comma)) in
    rw (here, whole, started, there) (later ∙ simp append_assoc)

-- Where every group's row has at most 256 bytes and the whole list fits the buffer with its NUL, the reply is the
-- rows of all groups in order, separated by commas, between the opening and the closing bracket, and the returned
-- length is the reply's.
pub list_text-joined :
    (rs : List GrpRecord) (cap : ℕ)
    → All (λ r. length (row_text r) ≤ 256) rs
    → length (joined 0 rs) + 14 ≤ cap
    → ((list_text rs cap).1 ≡ bytes "{\"groups\":[" ++ (joined 0 rs ++ bytes "]}"))
      × ((list_text rs cap).0 ≡ length (list_text rs cap).1)
unfolding list_text
list_text-joined rs cap small fits =
    let opening = bytes "{\"groups\":[" in
    let all_rows = list_from-joined cap 0 rs opening small (omega arith) in
    let room : length (opening ++ joined 0 rs) ≡ 11 + length (joined 0 rs) =
      length-append opening (joined 0 rs) in
    rw (all_rows, take_all (cap - length (opening ++ joined 0 rs) - 1) (bytes "]}") (omega arith))
      (
        append_assoc opening (joined 0 rs) (bytes "]}"),
        sym (length-append (opening ++ joined 0 rs) (bytes "]}")),
      )
