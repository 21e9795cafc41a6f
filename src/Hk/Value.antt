-- ===== src/Hk/Value.antt =====
-- internal/hk/value.go: a value of the configuration. A number is the bit pattern of its float64;
-- a map is the address of an OrderedMap in the store of Hk/Store, as the source holds a pointer.
use hacker_os_builder.Prelude.{
  ℕ, Bool, true, false, Option, none, some, List, [], ◌∷◌, if◌then◌else◌, Bytes, codes,
}
use hacker_os_builder.Text.Decimal.{ℤ, print_ℤ}
use hacker_os_builder.Hk.Errors.{Result, ok, err, type_mismatch, missing_field}
use hacker_os_builder.Hk.OrderedMap.{OrderedMap}

-- The operations on float64 that the source calls: `strconv.ParseFloat(s, 64)`, the
-- conversions to and from int64, `==`, and the verb %g.
pub record Floats : Type 0 where
  pub parse_float : Bytes → Option ℕ
  pub int64 : ℕ → ℤ
  pub float64 : ℤ → ℕ
  pub float_eq : ℕ → ℕ → Bool
  pub sprintf_g : ℕ → Bytes

mutual
  pub data HkValue : Type 0 where
    string : Bytes → HkValue
    number : ℕ → HkValue
    bool : Bool → HkValue
    array : Items → HkValue
    map : ℕ → HkValue

  pub data Items : Type 0 where
    nil : Items
    cons : HkValue → Items → Items

abbrev pub items : List HkValue → Items
items [] = nil
items (v ∷ vs) = cons v (items vs)

pub data ValueKind : Type 0 where
  kind_string kind_number kind_bool kind_array kind_map : ValueKind

abbrev pub kind : HkValue → ValueKind
kind (string s) = kind_string
kind (number n) = kind_number
kind (bool b) = kind_bool
kind (array xs) = kind_array
kind (map a) = kind_map

abbrev pub is_map : HkValue → Bool
is_map (map a) = true
is_map _ = false

abbrev pub kind_name : HkValue → Bytes
kind_name (string s) = codes "string"
kind_name (number n) = codes "number"
kind_name (bool b) = codes "bool"
kind_name (array xs) = codes "array"
kind_name (map a) = codes "map"

unfoldable pub format_number : Floats → ℕ → Bytes
format_number fl n =
    if fl.float_eq n (fl.float64 (fl.int64 n)) then print_ℤ (fl.int64 n) else fl.sprintf_g n

abbrev pub bool_text : Bool → Bytes
bool_text true = codes "true"
bool_text false = codes "false"

unfoldable pub as_string : Floats → HkValue → Result Bytes
as_string fl (string s) = ok s
as_string fl (number n) = ok (format_number fl n)
as_string fl (bool b) = ok (bool_text b)
as_string fl v = err (type_mismatch (codes "string") (kind_name v))

unfoldable pub as_number : HkValue → Result ℕ
as_number (number n) = ok n
as_number v = err (type_mismatch (codes "number") (kind_name v))

unfoldable pub as_bool : HkValue → Result Bool
as_bool (bool b) = ok b
as_bool v = err (type_mismatch (codes "bool") (kind_name v))

unfoldable pub as_array : HkValue → Result Items
as_array (array xs) = ok xs
as_array v = err (type_mismatch (codes "array") (kind_name v))

unfoldable pub as_map : HkValue → Result ℕ
as_map (map a) = ok a
as_map v = err (type_mismatch (codes "map") (kind_name v))

-- OrderedMap.MustGet
unfoldable pub must_get : OrderedMap HkValue → Bytes → Result HkValue
must_get m key = elim (m.values key) [ none ↦ err (missing_field key) | some v ↦ ok v ]
