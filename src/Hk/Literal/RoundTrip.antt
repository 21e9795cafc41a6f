-- ===== src/Hk/Literal/RoundTrip.antt =====
-- Texts written by serializeString, read by parseScalarOrArray.
use hacker_os_builder.Prelude.{
  ℕ, suc, ◌-◌, Bool, true, false, not, ◌&&◌, [], ◌∷◌, ◌++◌, ◌==◌, ltb, Bytes, length, equal_iff,
  ◌≡◌, refl, ◌∙◌, ap, arith, Bool-cases, inl, inr, reverse, reverse-append, take-append,
  length-append,
}
use hacker_os_builder.Text.Search.{has_prefix, has_suffix, contains_any, has_byte}
use hacker_os_builder.Text.Space.{trim_space, trim_space_fixed}
use hacker_os_builder.Hk.Errors.{ok}
use hacker_os_builder.Hk.Value.{Floats, string, array, Items}
use hacker_os_builder.Hk.LexValue.{
  unescape_from, unescape_string, inner, is_quoted, unquoted_scalar, parse_scalar, trimmed_scalar,
  is_bracketed, parse_scalar_or_array,
}
use hacker_os_builder.Hk.LexValue.Total.{parse_array_literal_total}
use hacker_os_builder.Hk.Literal.{
  looks_like_number_or_bool, special, needs_quotes, escape_byte, escape, serialize_string,
}

unescape-plain :
    (c : ℕ) (s : Bytes) → (c == b'\\') ≡ false → unescape_from (c ∷ s) ≡ c ∷ unescape_from s
unfolding unescape_from
unescape-plain c [] h = refl
unescape-plain c (d ∷ s) h = rw h

unescape-escape_byte :
    (c : ℕ) (s : Bytes) → unescape_from (escape_byte c ++ s) ≡ c ∷ unescape_from s
unfolding escape_byte unescape_from
unescape-escape_byte c s = ground (arith, unescape-plain c s)

-- Resolving the escapes undoes escaping, for every text.
pub unescape-escape : (s : Bytes) → unescape_from (escape s) ≡ s
unfolding escape unescape_from
unescape-escape [] = refl
unescape-escape (c ∷ s) = unescape-escape_byte c (escape s) ∙ ap (◌∷◌ c) (unescape-escape s)

inner_wrapped : (a b : ℕ) (s : Bytes) → inner (a ∷ (s ++ b ∷ [])) ≡ ok s
unfolding inner
inner_wrapped a b s =
    let whole : length (s ++ b ∷ []) ≡ suc (length s) = length-append s (b ∷ []) ∙ omega arith in
    let short : suc (length (s ++ b ∷ [])) - 1 ≡ suc (length s) = omega (arith, whole) in
    let long : ltb (suc (length (s ++ b ∷ []))) 2 ≡ false = ground (arith, whole) in
    rw long (ap ok (rw short (take-append s (b ∷ []))))

is_quoted_wrapped : (s : Bytes) → is_quoted (b'"' ∷ (s ++ b'"' ∷ [])) ≡ true
unfolding is_quoted
is_quoted_wrapped s =
    let whole : length (s ++ b'"' ∷ []) ≡ suc (length s) =
      length-append s (b'"' ∷ []) ∙ omega arith in
    let back : reverse (b'"' ∷ (s ++ b'"' ∷ [])) ≡ b'"' ∷ reverse (b'"' ∷ s) =
      reverse-append (b'"' ∷ s) (b'"' ∷ []) in
    let ends : has_suffix (b'"' ∷ (s ++ b'"' ∷ [])) (b'"' ∷ []) ≡ true =
      ap (λ t. has_prefix t (b'"' ∷ [])) back in
    rw ends (rw whole (ground arith))

is_bracketed_quote : (s : Bytes) → is_bracketed (b'"' ∷ s) ≡ false
unfolding is_bracketed
is_bracketed_quote s = refl

-- A trimmed text in no brackets is read as one scalar.
pub parse_trimmed :
    (fl : Floats) (t : Bytes)
    → trim_space t ≡ t
    → is_bracketed t ≡ false
    → parse_scalar_or_array fl t ≡ trimmed_scalar fl t
unfolding parse_scalar_or_array parse_scalar
parse_trimmed fl t e h = rw e (rw h (rw e))

trimmed_scalar-quoted :
    (fl : Floats) (s : Bytes) → trimmed_scalar fl (b'"' ∷ (escape s ++ b'"' ∷ [])) ≡ ok (string s)
unfolding trimmed_scalar unescape_string
trimmed_scalar-quoted fl s =
    rw is_quoted_wrapped (rw inner_wrapped (ap (λ t. ok (string t)) (unescape-escape s)))

-- A text with no quotation mark is not quoted.
is_quoted-special : (s : Bytes) → contains_any s special ≡ false → is_quoted s ≡ false
unfolding is_quoted contains_any has_byte
is_quoted-special [] h = refl
is_quoted-special (c ∷ s) h = ground arith

unquoted_scalar_plain :
    (fl : Floats) (s : Bytes)
    → looks_like_number_or_bool fl s ≡ false
    → unquoted_scalar fl s ≡ string s
unfolding unquoted_scalar looks_like_number_or_bool
unquoted_scalar_plain fl s h = ground arith

trimmed_scalar-plain :
    (fl : Floats) (s : Bytes) → needs_quotes fl s ≡ false → trimmed_scalar fl s ≡ ok (string s)
unfolding trimmed_scalar needs_quotes
trimmed_scalar-plain fl s h = ground (arith, is_quoted-special s, unquoted_scalar_plain fl s)

trim_space_plain : (fl : Floats) (s : Bytes) → needs_quotes fl s ≡ false → trim_space s ≡ s
unfolding needs_quotes
trim_space_plain fl s h = (equal_iff (trim_space s) s).0 (ground arith)

-- Where the text is written plain although it stands in brackets, nothing marks it as a text.
abbrev pub looks_like_array : Floats → Bytes → Bool
looks_like_array fl s = is_bracketed s && not (needs_quotes fl s)

-- A text is read back as it was written, unless it is written plain and stands in brackets.
pub parse-serialize_string :
    (fl : Floats) (s : Bytes)
    → looks_like_array fl s ≡ false
    → parse_scalar_or_array fl (serialize_string fl s) ≡ ok (string s)
unfolding serialize_string
parse-serialize_string fl s h = elim (Bool-cases (needs_quotes fl s)) [
  | inl quoted ↦ rw quoted (
      parse_trimmed fl (b'"' ∷ (escape s ++ b'"' ∷ []))
        (trim_space_fixed b'"' b'"' (escape s) refl refl) (is_bracketed_quote _)
      ∙ trimmed_scalar-quoted fl s)
  | inr plain ↦ rw plain (
      parse_trimmed fl s (trim_space_plain fl s plain) (ground (arith, plain))
      ∙ trimmed_scalar-plain fl s plain)
]

-- Such a text is read back as an array.
pub parse-serialize_string_bracketed :
    (fl : Floats) (s : Bytes)
    → looks_like_array fl s ≡ true
    → (xs : Items) × (parse_scalar_or_array fl (serialize_string fl s) ≡ ok (array xs))
unfolding serialize_string parse_scalar_or_array
parse-serialize_string_bracketed fl s h =
    let plain : needs_quotes fl s ≡ false = ground (arith, h) in
    let bracketed : is_bracketed s ≡ true = ground (arith, h) in
    let (xs, read) = parse_array_literal_total fl s bracketed in
    (xs, rw plain (rw (trim_space_plain fl s plain) (rw bracketed read)))
