-- ===== src/Hk/LexValue/Total.antt =====
-- The outcomes of reading a value.
use hacker_os_builder.Prelude.{
  true, &&_iff, ℕ, arith, false, Option, none, some, List, [], ◌∷◌, Bytes, ◌≡◌, refl, Bool-cases,
  inl, inr,
}
use hacker_os_builder.Text.Space.{trim_space}
use hacker_os_builder.Text.Search.{has_prefix, has_suffix}
use hacker_os_builder.Hk.Errors.{ok}
use hacker_os_builder.Hk.Value.{Floats, HkValue, string, array, Items, nil, cons, is_map}
use hacker_os_builder.Hk.LexValue.{
  plain_scalar, unescape_from, unescape_string, cut_ends, inner, is_quoted, unquoted_scalar,
  trimmed_scalar, parse_scalar, split_array_elements, parse_elements, array_inner,
  parse_array_literal, is_bracketed, parse_scalar_or_array,
}

-- A text between two quotation marks, or between brackets, has two ends to cut.
pub inner-is_quoted : (s : Bytes) → is_quoted s ≡ true → inner s ≡ ok (cut_ends s)
unfolding inner is_quoted
inner-is_quoted s h = ground (arith, h)

pub inner-brackets :
    (s : Bytes)
    → has_prefix s (b'[' ∷ []) ≡ true
    → has_suffix s (b']' ∷ []) ≡ true
    → inner s ≡ ok (cut_ends s)
unfolding inner has_prefix has_suffix
inner-brackets [] h k = cc
inner-brackets (c ∷ []) h k = ground (arith, h, k)
inner-brackets (c ∷ d ∷ s) h k = ground arith

plain_scalar-is_map : (n : Option ℕ) (raw : Bytes) → is_map (plain_scalar n raw) ≡ false
unfolding plain_scalar
plain_scalar-is_map none raw = refl
plain_scalar-is_map (some n) raw = refl

unquoted_scalar-is_map : (fl : Floats) (raw : Bytes) → is_map (unquoted_scalar fl raw) ≡ false
unfolding unquoted_scalar
unquoted_scalar-is_map fl raw = ground (arith, plain_scalar-is_map (fl.parse_float raw) raw)

trimmed_scalar_total :
    (fl : Floats) (raw : Bytes)
    → (v : HkValue) × (trimmed_scalar fl raw ≡ ok v) × (is_map v ≡ false)
unfolding trimmed_scalar unescape_string
trimmed_scalar_total fl raw = elim (Bool-cases (is_quoted raw)) [
  | inl quoted ↦ (
    string (unescape_from (cut_ends raw)),
    rw quoted (rw (inner-is_quoted raw quoted) refl),
    refl,
  )
  | inr plain ↦ (unquoted_scalar fl raw, rw plain, unquoted_scalar-is_map fl raw)
]

pub parse_scalar_total :
    (fl : Floats) (raw : Bytes) → (v : HkValue) × (parse_scalar fl raw ≡ ok v) × (is_map v ≡ false)
unfolding parse_scalar
parse_scalar_total fl raw = trimmed_scalar_total fl (trim_space raw)

pub parse_elements_total :
    (fl : Floats) (parts : List Bytes) → (vs : Items) × (parse_elements fl parts ≡ ok vs)
unfolding parse_elements
parse_elements_total fl [] = (nil, refl)
parse_elements_total fl (p ∷ parts) =
    let (v, read, _) = parse_scalar_total fl (trim_space p) in
    let (vs, later) = parse_elements_total fl parts in (cons v vs, rw read (rw later))

pub array_inner_total :
    (fl : Floats) (s : Bytes) → (vs : Items) × (array_inner fl s ≡ ok (array vs))
unfolding array_inner
array_inner_total fl [] = (nil, refl)
array_inner_total fl (x ∷ s) =
    let (vs, read) = parse_elements_total fl (split_array_elements (x ∷ s)) in (vs, rw read)

pub parse_array_literal_total :
    (fl : Floats) (raw : Bytes)
    → is_bracketed raw ≡ true
    → (vs : Items) × (parse_array_literal fl raw ≡ ok (array vs))
unfolding parse_array_literal is_bracketed
parse_array_literal_total fl raw h =
    let (vs, read) = array_inner_total fl (trim_space (cut_ends raw)) in
    let (opened, closed) = (&&_iff _ _).0 h in (vs, rw (inner-brackets raw opened closed) read)

-- Every text is read by parseScalarOrArray as some value that is no map, with no error and no
-- panic: a slice of it that is out of range would be one.
pub parse_scalar_or_array_total :
    (fl : Floats) (raw : Bytes)
    → (v : HkValue) × (parse_scalar_or_array fl raw ≡ ok v) × (is_map v ≡ false)
unfolding parse_scalar_or_array
parse_scalar_or_array_total fl raw = elim (Bool-cases (is_bracketed (trim_space raw))) [
  | inl bracketed ↦
      let (vs, read) = parse_array_literal_total fl (trim_space raw) bracketed in
      (array vs, rw bracketed read, refl)
  | inr scalar ↦
      let (v, read, leaf) = parse_scalar_total fl (trim_space raw) in (v, rw scalar read, leaf)
]
