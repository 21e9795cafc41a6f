-- ===== src/Hk/Literal.antt =====
-- internal/hk/serialize.go: how a value is written behind "=>".
pub mod RoundTrip
use hacker_os_builder.Prelude.{
  ℕ, Bool, true, false, not, ◌&&◌, ◌||◌, Option, none, some, List, [], ◌∷◌, ◌++◌, ◌==◌,
  if◌then◌else◌, Bytes, codes, equal, is_some,
}
use hacker_os_builder.Text.Search.{contains_any, to_lower}
use hacker_os_builder.Text.Space.{trim_space}
use hacker_os_builder.Text.Pieces.{join}
use hacker_os_builder.Hk.Value.{
  Floats, HkValue, string, number, bool, array, map, Items, nil, cons, format_number, bool_text,
}

unfoldable pub looks_like_number_or_bool : Floats → Bytes → Bool
unfolding to_lower equal
looks_like_number_or_bool fl s =
    equal (to_lower s) (codes "true")
    || equal (to_lower s) (codes "false")
    || is_some (fl.parse_float s)

abbrev pub special : Bytes
special = b'\n' ∷ b'\t' ∷ b'\r' ∷ b'"' ∷ b'\\' ∷ []

unfoldable pub needs_quotes : Floats → Bytes → Bool
unfolding equal
needs_quotes fl s =
    equal s []
    || contains_any s special
    || looks_like_number_or_bool fl s
    || not (equal (trim_space s) s)

-- the replacement of one byte by `strings.NewReplacer`
unfoldable pub escape_byte : ℕ → Bytes
escape_byte c =
    if c == b'\\'
    then b'\\' ∷ b'\\' ∷ []
    else if c == b'"'
    then b'\\' ∷ b'"' ∷ []
    else if c == b'\n'
    then b'\\' ∷ b'n' ∷ []
    else if c == b'\t'
    then b'\\' ∷ b't' ∷ []
    else if c == b'\r'
    then b'\\' ∷ b'r' ∷ []
    else c ∷ []

unfoldable pub escape : Bytes → Bytes
unfolding escape_byte
escape [] = []
escape (c ∷ s) = escape_byte c ++ escape s

unfoldable pub serialize_string : Floats → Bytes → Bytes
serialize_string fl s = if needs_quotes fl s then b'"' ∷ (escape s ++ b'"' ∷ []) else s

unfoldable mutual
  unfolding serialize_string format_number join

  pub serialize_scalar_or_array : Floats → HkValue → Bytes
  serialize_scalar_or_array fl (string s) = serialize_string fl s
  serialize_scalar_or_array fl (number n) = format_number fl n
  serialize_scalar_or_array fl (bool b) = bool_text b
  serialize_scalar_or_array fl (array xs) =
      b'[' ∷ (join (b',' ∷ b' ' ∷ []) (serialize_items fl xs) ++ b']' ∷ [])
  serialize_scalar_or_array fl (map a) = []

  pub serialize_items : Floats → Items → List Bytes
  serialize_items fl nil = []
  serialize_items fl (cons x xs) = serialize_scalar_or_array fl x ∷ serialize_items fl xs
