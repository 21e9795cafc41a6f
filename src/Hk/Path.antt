-- ===== src/Hk/Path.antt =====
-- internal/hk/path.go: dotted paths and array indices.
pub mod Laws
use hacker_os_builder.Prelude.{
  is_empty, ℕ, ◌+◌, ◌-◌, ◌*◌, ◌%◌, ◌^◌, Bool, true, false, not, ◌&&◌, ◌||◌, Option, none, some,
  List, [], ◌∷◌, ◌++◌, ◌==◌, ltb, leb, if◌then◌else◌, Bytes, take, drop,
}
use hacker_os_builder.Text.Search.{index_byte}
use hacker_os_builder.Text.Decimal.{ℤ, pos, negsuc}
use hacker_os_builder.Text.Runes.{reencode}

-- The loop of `splitPath`, and the last append behind it.
unfoldable pub split_from : Bool → List Bytes → Bytes → Bytes → List Bytes
split_from in_quotes segments cur [] =
    if not (is_empty cur) || not (is_empty segments) then segments ++ cur ∷ [] else segments
split_from in_quotes segments cur (r ∷ path) =
    let quote = split_from (not in_quotes) segments cur path in
    let dot = split_from in_quotes (segments ++ cur ∷ []) [] path in
    let other = split_from in_quotes segments (cur ++ r ∷ []) path in
    if r == b'"' then quote else if r == b'.' && not in_quotes then dot else other

unfoldable pub split_path : Bytes → List Bytes
unfolding split_from
split_path path = split_from false [] [] (reencode path)

-- `int` has 64 bits.
abbrev pub int_mod : ℕ
int_mod = 2 ^ 64

-- The loop over `numStr`: n and neg, or `none` where a character is refused.
unfoldable pub index_digits : Bytes → ℕ → Bool → Bool → Option (ℕ × Bool)
index_digits [] n neg started = some (n, neg)
index_digits (c ∷ cs) n neg started =
    let minus = index_digits cs n true true in
    let digit = index_digits cs ((n * 10 + (c - b'0')) % int_mod) neg true in
    if c == b'-' && not started then minus else if ltb c b'0' || ltb b'9' c then none else digit

-- The integer that a 64-bit word stands for.
abbrev pub signed : ℕ → ℤ
signed word = if leb (2 ^ 63) word then negsuc ((int_mod - 1) - word) else pos word

pub record ArrayIndex : Type 0 where
  pub index : ℤ
  pub has_index : Bool
  pub base : Bytes

abbrev pub no_index : Bytes → ArrayIndex
no_index segment = record { index = pos 0; has_index = false; base = segment }

unfoldable pub index_in : Bytes → ℕ → ℕ → ArrayIndex
unfolding index_digits
index_in segment open_idx close_idx =
    if ltb close_idx open_idx
    then no_index segment
    else elim (index_digits (drop (open_idx + 1) (take close_idx segment)) 0 false false) [
      | none ↦ no_index segment
      | some (n, neg) ↦ record {
        index = signed (if neg then (int_mod - n) % int_mod else n);
        has_index = true;
        base = take open_idx segment;
      }
    ]

unfoldable pub parse_array_index : Bytes → ArrayIndex
unfolding index_byte
parse_array_index segment = elim (index_byte segment b'[') [
  | none ↦ no_index segment
  | some open_idx ↦ elim (index_byte segment b']') [
    | none ↦ no_index segment
    | some close_idx ↦ index_in segment open_idx close_idx
  ]
]
