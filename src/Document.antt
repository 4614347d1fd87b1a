-- ===== src/Document.antt =====
-- JSON documents, as the handlers read and build them through ArduinoJson.
-- `JsonLib` stands for its deserializeJson and serializeJson.
use zhac_mono_core.Prelude.{
  ℕ, ◌-◌, ◌%◌, ◌^◌, Bool, true, false, ◌&&◌, Option, none, some, List, [], ◌∷◌, ltb, ◌==◌,
  if◌then◌else◌, take, String,
}
use zhac_mono_core.Prelude.Text.{bytes}

-- The integers over the native numbers.
pub data ℤ : Type 0 where
  pos negsuc : ℕ → ℤ

-- `real` is a number with a fraction or an exponent, by its text; `text` the bytes before a NUL.
mutual
  pub data Json : Type 0 where
    null : Json
    boolean : Bool → Json
    integer : ℤ → Json
    real : List ℕ → Json
    text : List ℕ → Json
    array : Items → Json
    object : Fields → Json

  pub data Items : Type 0 where
    nil : Items
    item : Json → Items → Items

  pub data Fields : Type 0 where
    end : Fields
    field : List ℕ → Json → Fields → Fields

-- strcmp(a, b) == 0.
unfoldable pub same : List ℕ → List ℕ → Bool
same [] [] = true
same [] (y ∷ ys) = false
same (x ∷ xs) [] = false
same (x ∷ xs) (y ∷ ys) = let rest = same xs ys in x == y && rest

unfoldable pub lookup : List ℕ → Fields → Json
lookup k end = null
lookup k (field j v fs) = let rest = lookup k fs in if same k j then v else rest

-- doc["key"]: null where there is no such member or no object.
unfoldable pub member : Json → String → Json
unfolding lookup
member (object fs) k = lookup (bytes k) fs
member _ k = null

-- doc | (const char*)nullptr
unfoldable pub as_text : Json → Option (List ℕ)
as_text (text s) = some s
as_text _ = none

-- doc | def, for a bool
unfoldable pub bool_or : Json → Bool → Bool
bool_or (boolean b) def = b
bool_or _ def = def

-- doc | def, for an unsigned type of `w` bits: a number that the type does not hold gives `def`
unfoldable pub uint_or : ℕ → Json → ℕ → ℕ
uint_or w (integer (pos n)) def = if ltb n (2 ^ w) then n else def
uint_or w _ def = def

-- doc.is<int>(), with the value
unfoldable pub as_int : Json → Option ℤ
as_int (integer (pos n)) = if ltb n (2 ^ 31) then some (pos n) else none
as_int (integer (negsuc n)) = if ltb n (2 ^ 31) then some (negsuc n) else none
as_int _ = none

-- doc | -1, where the caller turns a negative number away
unfoldable pub natural : Json → Option ℕ
natural (integer (pos n)) = if ltb n (2 ^ 31) then some n else none
natural _ = none

-- A conversion to an unsigned type of `w` bits.
unfoldable pub wrap : ℕ → ℤ → ℕ
wrap w (pos n) = n % 2 ^ w
wrap w (negsuc n) = 2 ^ w - 1 - n % 2 ^ w

unfoldable pub is_null : Json → Bool
is_null null = true
is_null _ = false

-- The elements, none for what is no array.
unfoldable pub elements : Items → List Json
elements nil = []
elements (item v vs) = v ∷ elements vs

unfoldable pub as_array : Json → List Json
unfolding elements
as_array (array vs) = elements vs
as_array _ = []

unfoldable pub array_of : List Json → Items
array_of [] = nil
array_of (v ∷ vs) = item v (array_of vs)

unfoldable pub fields_of : List (List ℕ × Json) → Fields
fields_of [] = end
fields_of ((k, v) ∷ fs) = field k v (fields_of fs)

-- A document built member by member.
unfoldable pub object_of : List (List ℕ × Json) → Json
unfolding fields_of
object_of fs = object (fields_of fs)

abbrev pub number : ℕ → Json
number n = integer (pos n)

-- deserializeJson is none on an error; serializeJson's whole text.
pub record JsonLib : Type 0 where
  pub deserialize : List ℕ → Option Json
  pub serialize : Json → List ℕ

-- serializeJson into `cap` bytes cuts the text off at the end of the buffer.
unfoldable pub serialize_to : JsonLib → Json → ℕ → List ℕ
serialize_to lib doc cap = take cap (lib.serialize doc)
