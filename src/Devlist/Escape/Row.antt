-- ===== src/Devlist/Escape/Row.antt =====
-- main/devlist_page.h: every row fits the buffer of kDevlistRowCap bytes.
use zhac_mono_core.Prelude.{
  ℕ, zero, suc, ◌+◌, ◌*◌, ◌/◌, ◌%◌, ◌^◌, ◌≤◌, ◌<◌, ◌≡◌, Bool, true, List, [], ◌∷◌, ◌++◌,
  if◌then◌else◌, if_cases, ltb, length, length-append, String, arith,
}
use zhac_mono_core.Prelude.Text.{bytes, hex_digit_upper, hex_fixed, decimal_fuel, decimal}
use zhac_mono_core.Devlist.Escape.{json_escape, DevlistRow, field, devlist_row}
use zhac_mono_core.Devlist.Escape.Pieces.{json_escape-pieces}

ten_to : ℕ → ℕ
ten_to zero = 1
ten_to (suc k) = 10 * ten_to k

length-decimal_fuel : (f k v : ℕ) → v < ten_to (suc k) → length (decimal_fuel f v) ≤ suc k
unfolding decimal_fuel ten_to
length-decimal_fuel zero k v h = omega arith
length-decimal_fuel (suc f) zero v h =
    let small : ltb v 10 ≡ true = ground arith in rw small (omega arith)
length-decimal_fuel (suc f) (suc k) v h =
    let rest = length-decimal_fuel f k (v / 10) (omega arith) in
    if_cases (λ (t : List ℕ). length t ≤ suc (suc k)) (ltb v 10) _ _ (λ e. omega arith)
      (λ e. omega (arith, length-append (decimal_fuel f (v / 10)) ((b'0' + v % 10) ∷ [])))

pub ten_digits : (v : ℕ) → v < 2 ^ 32 → length (decimal v) ≤ 10
unfolding decimal ten_to
ten_digits v h = length-decimal_fuel 20 9 v (omega arith)

length-hex_fixed : (digit : ℕ → ℕ) (n v : ℕ) → length (hex_fixed digit n v) ≡ n
unfolding hex_fixed
length-hex_fixed digit zero v = omega arith
length-hex_fixed digit (suc n) v = omega (
  arith,
  length-append (hex_fixed digit n (v / 16)) (digit (v % 16) ∷ []),
  length-hex_fixed digit n (v / 16),
)

both : (xs ys : List ℕ) (m n : ℕ) → length xs ≤ m → length ys ≤ n → length (xs ++ ys) ≤ m + n
both xs ys m n h k = omega (arith, length-append xs ys)

length-field : (key : String) (src : List ℕ) → length (field key src) ≤ length (bytes key) + 64
unfolding field
length-field key src =
    let (k, same, small, stop) = json_escape-pieces src 64 (omega arith) in
    both (bytes key) (json_escape src 64 ++ bytes "\"") (length (bytes key)) 64 (omega arith)
      (both (json_escape src 64) (bytes "\"") 63 1 (omega arith) (omega arith))

-- A row whose numbers are of their C types, so that printf makes at most 20 characters of `last_seen` and 11 of `battery`,
-- has at most 612 bytes, whatever its strings are: it fits kDevlistRowCap.
pub devlist_row-length :
    (r : DevlistRow) (is_first : Bool)
    → r.nwk < 2 ^ 32
    → r.lqi < 2 ^ 32
    → r.ep_count < 2 ^ 32
    → length r.last_seen ≤ 20
    → length r.battery ≤ 11
    → length (devlist_row r is_first) ≤ 612
unfolding devlist_row
devlist_row-length r is_first nwk lqi eps seen bat =
    let comma : length (if is_first then [] else bytes ",") ≤ 1 = ground arith in
    let known : length (if r.known then bytes "true" else bytes "false") ≤ 5 = ground arith in
    let ieee =
      both (bytes "{\"ieee\":\"0x") _ 11 16 (omega arith)
        (omega (arith, length-hex_fixed hex_digit_upper 16 r.ieee)) in
    let a = both _ _ 1 27 comma ieee in
    let b =
      both _ _ 28 18 a (both (bytes "\",\"nwk\":") _ 8 10 (omega arith) (ten_digits r.nwk nwk)) in
    let c = both _ _ 46 77 b (length-field ",\"friendly\":\"" r.friendly) in
    let d = both _ _ 123 73 c (length-field ",\"name\":\"" r.friendly) in
    let e = both _ _ 196 74 d (length-field ",\"model\":\"" r.model) in
    let f = both _ _ 270 81 e (length-field ",\"manufacturer\":\"" r.manufacturer) in
    let g = both _ _ 351 75 f (length-field ",\"vendor\":\"" r.vendor) in
    let h = both _ _ 426 77 g (length-field ",\"model_id\":\"" r.model_id) in
    let i = both _ _ 503 14 h (both (bytes ",\"known\":") _ 9 5 (omega arith) known) in
    let j = both _ _ 517 33 i (both (bytes ",\"last_seen\":") _ 13 20 (omega arith) seen) in
    let k =
      both _ _ 550 17 j (both (bytes ",\"lqi\":") _ 7 10 (omega arith) (ten_digits r.lqi lqi)) in
    let l = both _ _ 567 22 k (both (bytes ",\"battery\":") _ 11 11 (omega arith) bat) in
    both _ _ 589 23 l (
      both (bytes ",\"ep_count\":") _ 12 11 (omega arith)
        (both (decimal r.ep_count) (bytes "}") 10 1 (ten_digits r.ep_count eps) (omega arith)))

right_pos : (xs ys : List ℕ) → 0 < length ys → 0 < length (xs ++ ys)
right_pos xs ys h = omega (arith, length-append xs ys)

pub devlist_row_pos : (r : DevlistRow) (is_first : Bool) → 0 < length (devlist_row r is_first)
unfolding devlist_row
devlist_row_pos r is_first =
    right_pos _ (bytes ",\"ep_count\":" ++ (decimal r.ep_count ++ bytes "}")) (omega arith)
