-- ===== src/Hk/LexValue.antt =====
-- internal/hk/lexvalue.go: the text behind "=>" to a value.
pub mod Total
use hacker_os_builder.Prelude.{
  ℕ, suc, ◌+◌, ◌-◌, Bool, true, false, not, ◌&&◌, ◌||◌, Option, none, some, List, [], ◌∷◌, ◌++◌,
  ◌==◌, ltb, leb, if◌then◌else◌, Bytes, length, take, drop, codes, equal, ◌≡◌, refl,
}
use hacker_os_builder.Text.Search.{has_prefix, has_suffix, to_lower}
use hacker_os_builder.Text.Space.{trim_space}
use hacker_os_builder.Text.Runes.{reencode}
use hacker_os_builder.Hk.Errors.{Result, panic, ok, err, ◌>>=◌}
use hacker_os_builder.Hk.Value.{Floats, HkValue, string, number, bool, array, Items, nil, cons}

-- What stands for the byte behind a backslash.
unfoldable pub unescape_byte : ℕ → Bytes
unescape_byte c =
    if c == b'n'
    then b'\n' ∷ []
    else if c == b't'
    then b'\t' ∷ []
    else if c == b'r'
    then b'\r' ∷ []
    else if c == b'"'
    then b'"' ∷ []
    else if c == b'\\'
    then b'\\' ∷ []
    else b'\\' ∷ c ∷ []

unfoldable pub unescape_from : Bytes → Bytes
unfolding unescape_byte
unescape_from [] = []
unescape_from (c ∷ []) = c ∷ []
unescape_from (c ∷ d ∷ s) =
    let pair = unescape_byte d ++ unescape_from s in
    let plain = c ∷ unescape_from (d ∷ s) in if c == b'\\' then pair else plain

-- The error is always nil in the source.
unfoldable pub unescape_string : Bytes → Result Bytes
unfolding unescape_from
unescape_string s = ok (unescape_from s)

abbrev pub cut_ends : Bytes → Bytes
cut_ends raw = drop 1 (take (length raw - 1) raw)

-- `raw[1 : len(raw)-1]`, which is out of range for fewer than two bytes.
unfoldable pub inner : Bytes → Result Bytes
inner raw = if ltb (length raw) 2 then panic else ok (cut_ends raw)

-- `len(s) >= 2 && s[0] == '"' && s[len(s)-1] == '"'`
unfoldable pub is_quoted : Bytes → Bool
unfolding has_prefix has_suffix
is_quoted s = leb 2 (length s) && has_prefix s (b'"' ∷ []) && has_suffix s (b'"' ∷ [])

unfoldable pub plain_scalar : Option ℕ → Bytes → HkValue
plain_scalar (some n) raw = number n
plain_scalar none raw = string raw

-- What is left of parseScalar for a trimmed text that is not quoted.
unfoldable pub unquoted_scalar : Floats → Bytes → HkValue
unfolding plain_scalar to_lower equal
unquoted_scalar fl raw =
    if equal (to_lower raw) (codes "true")
    then bool true
    else if equal (to_lower raw) (codes "false")
    then bool false
    else plain_scalar (fl.parse_float raw) raw

unfoldable pub trimmed_scalar : Floats → Bytes → Result HkValue
trimmed_scalar fl raw =
    if is_quoted raw
    then (inner raw >>= λ s. (unescape_string s >>= λ unescaped. ok (string unescaped)))
    else ok (unquoted_scalar fl raw)

unfoldable pub parse_scalar : Floats → Bytes → Result HkValue
parse_scalar fl raw = trimmed_scalar fl (trim_space raw)

-- The loop of splitArrayElements, and the last append behind it.
unfoldable pub split_elements_from : Bool → Bool → List Bytes → Bytes → Bytes → List Bytes
split_elements_from in_quotes escaped parts [] [] = parts
split_elements_from in_quotes escaped parts (x ∷ cur) [] = parts ++ (x ∷ cur) ∷ []
split_elements_from in_quotes true parts cur (r ∷ s) =
    split_elements_from in_quotes false parts (cur ++ r ∷ []) s
split_elements_from in_quotes false parts cur (r ∷ s) =
    let backslash = split_elements_from in_quotes true parts (cur ++ r ∷ []) s in
    let quote = split_elements_from (not in_quotes) false parts (cur ++ r ∷ []) s in
    let comma = split_elements_from in_quotes false (parts ++ cur ∷ []) [] s in
    let other = split_elements_from in_quotes false parts (cur ++ r ∷ []) s in
    if r == b'\\' && in_quotes
    then backslash
    else if r == b'"'
    then quote
    else if r == b',' && not in_quotes
    then comma
    else other

unfoldable pub split_array_elements : Bytes → List Bytes
unfolding split_elements_from
split_array_elements s = split_elements_from false false [] [] (reencode s)

unfoldable pub parse_elements : Floats → List Bytes → Result Items
parse_elements fl [] = ok nil
parse_elements fl (p ∷ parts) =
    let rest = parse_elements fl parts in
    parse_scalar fl (trim_space p) >>= λ v. rest >>= λ vs. ok (cons v vs)

unfoldable pub array_inner : Floats → Bytes → Result HkValue
array_inner fl [] = ok (array nil)
array_inner fl (x ∷ s) = parse_elements fl (split_array_elements (x ∷ s)) >>= λ vs. ok (array vs)

unfoldable pub parse_array_literal : Floats → Bytes → Result HkValue
parse_array_literal fl raw = inner raw >>= λ s. array_inner fl (trim_space s)

unfoldable pub is_bracketed : Bytes → Bool
unfolding has_prefix has_suffix
is_bracketed s = has_prefix s (b'[' ∷ []) && has_suffix s (b']' ∷ [])

unfoldable pub parse_scalar_or_array : Floats → Bytes → Result HkValue
parse_scalar_or_array fl raw =
    let text = trim_space raw in
    if is_bracketed text then parse_array_literal fl text else parse_scalar fl text
