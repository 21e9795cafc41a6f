-- ===== src/Hk/Parser.antt =====
-- internal/hk/parser.go: the line parser.
pub mod Steps
pub mod Safe
pub mod Invariant
use hacker_os_builder.Prelude.{
  is_empty, ℕ, zero, suc, ◌+◌, ◌-◌, Bool, true, false, not, ◌&&◌, ◌||◌, Option, none, some, List,
  [], ◌∷◌, ◌++◌, ◌==◌, ltb, if◌then◌else◌, Bytes, length, take, drop, get_elem?, equal,
}
use hacker_os_builder.Text.Search.{has_prefix, has_suffix, index}
use hacker_os_builder.Text.Space.{trim_space}
use hacker_os_builder.Text.Pieces.{split}
use hacker_os_builder.Hk.Errors.{
  Reason, unexpected_line, section_not_closed, empty_section_name, key_before_section,
  missing_arrow, missing_key, missing_key_name, bad_value, too_deep, ParseError, Error, parse_error,
  key_conflict, Result, ok, err, panic, ◌>>=◌,
}
use hacker_os_builder.Hk.OrderedMap.{get}
use hacker_os_builder.Hk.Value.{Floats, HkValue, map, as_map}
use hacker_os_builder.Hk.LexValue.{inner, is_quoted, parse_scalar_or_array}
use hacker_os_builder.Hk.Store.{Store, alloc, set_at, HkConfig, new_hk_config}
use hacker_os_builder.Hk.Insert.{insert_with_dot_expansion}

-- `config` is the store with the address of the map of sections; `lines` and `sourcePath` are
-- read only.
pub record Parser : Type 0 where
  pub store : Store
  pub sections : ℕ
  pub current_section : Bytes
  pub node_stack : List ℕ
  pub key_stack : List Bytes

abbrev pub fail {ℓ} : {A : Type ℓ} → ℕ → ℕ → Reason → Bytes → Result A
fail line column reason raw =
    err (parse_error (record { line = line; column = column; reason = reason; source_line = raw }))

unfoldable pub open_section : Parser → Bytes → Store → ℕ → Parser
open_section p name s a = record p {
  store = s;
  current_section = name;
  node_stack = a ∷ [];
  key_stack = name ∷ [];
}

-- A section that exists is continued, and another is created.
unfoldable pub enter_section : Parser → Bytes → Result Parser
enter_section p name = elim (get (p.store.cell p.sections) name) [
  | some existing ↦ elim (as_map existing) [
    | ok m ↦ ok (open_section p name p.store m)
    | err e ↦ err (key_conflict name)
    | panic ↦ panic
  ]
  | none ↦
      let s = alloc p.store in
      ok (open_section p name (set_at s p.sections name (map p.store.next)) p.store.next)
]

unfoldable pub named_section : Parser → Bytes → ℕ → Bytes → Result Parser
named_section p name line_no raw =
    if is_empty name then fail line_no 2 empty_section_name raw else enter_section p name

unfoldable pub handle_section_header : Parser → Bytes → ℕ → Bytes → Result Parser
handle_section_header p line line_no raw =
    if not (has_suffix line (b']' ∷ []))
    then fail line_no (length line) section_not_closed raw
    else (inner line >>= λ name. named_section p (trim_space name) line_no raw)

-- `s[n:]`, which is out of range behind the end.
unfoldable pub slice_from : ℕ → Bytes → Result Bytes
slice_from n s = if ltb (length s) n then panic else ok (drop n s)

-- the number of dashes that a line begins with
unfoldable pub dashes : Bytes → ℕ
dashes [] = 0
dashes (c ∷ line) = let more = dashes line in if c == b'-' then suc more else 0

unfoldable pub count_dash_depth : Bytes → ℕ → Bytes → Result (ℕ × Bytes)
unfolding dashes
count_dash_depth line line_no raw =
    let i = dashes line in
    elim (get_elem? line i) [
      | none ↦ fail line_no (i + 1) missing_arrow raw
      | some c ↦
          if i == 0 || not (c == b'>')
          then fail line_no (i + 1) missing_arrow raw
          else (slice_from (i + 1) line >>= λ rest. ok (i, rest))
    ]

unfoldable pub strip_quotes : Bytes → Result Bytes
strip_quotes s = if is_quoted s then inner s else ok s

-- No "=>": the line opens a map of its own.
unfoldable pub open_map : Parser → ℕ → Bytes → Result Parser
open_map p target rest =
    let new_map = p.store.next in
    strip_quotes (trim_space rest) >>= λ key_name.
    (insert_with_dot_expansion (alloc p.store) target key_name (map new_map) >>= λ s. ok (record p {
      store = s;
      node_stack = p.node_stack ++ new_map ∷ [];
      key_stack = p.key_stack ++ key_name ∷ [];
    }))

unfoldable pub assign_value : Parser → ℕ → Bytes → Result HkValue → ℕ → ℕ → Bytes → Result Parser
assign_value p target key_part (ok value) depth line_no raw = strip_quotes key_part >>= λ key.
    (insert_with_dot_expansion p.store target key value >>= λ s. ok (record p { store = s }))
assign_value p target key_part (err e) depth line_no raw = fail line_no (depth + 1) bad_value raw
assign_value p target key_part panic depth line_no raw = panic

unfoldable pub assign : Floats → Parser → ℕ → Bytes → ℕ → ℕ → ℕ → Bytes → Result Parser
unfolding assign_value
assign fl p target rest arrow depth line_no raw =
    let key_part = trim_space (take arrow rest) in
    slice_from (arrow + 2) rest >>= λ val_text.
    (if is_empty key_part
      then fail line_no (depth + 1) missing_key_name raw
      else assign_value p target key_part (parse_scalar_or_array fl (trim_space val_text)) depth
          line_no raw)

-- `"=>"`
abbrev pub arrow_text : Bytes
arrow_text = b'=' ∷ b'>' ∷ []

unfoldable pub key_in_map : Floats → Parser → ℕ → Bytes → ℕ → ℕ → Bytes → Result Parser
key_in_map fl p target rest depth line_no raw = elim (index rest arrow_text) [
  | none ↦ open_map p target rest
  | some arrow ↦ assign fl p target rest arrow depth line_no raw
]

-- The stacks are cut to the depth, and the last map that is left takes the key.
unfoldable pub key_at_depth : Floats → Parser → ℕ → Bytes → ℕ → Bytes → Result Parser
key_at_depth fl p depth rest line_no raw =
    let cut = record p {
      node_stack = take depth p.node_stack;
      key_stack = take depth p.key_stack;
    } in
    if is_empty rest
    then fail line_no (depth + 1) missing_key raw
    else if ltb (length p.node_stack) depth
    then fail line_no 1 (too_deep depth) raw
    else elim (get_elem? cut.node_stack (depth - 1)) [
      | none ↦ panic
      | some target ↦ key_in_map fl cut target rest depth line_no raw
    ]

unfoldable pub handle_key_line : Floats → Parser → Bytes → ℕ → Bytes → Result Parser
handle_key_line fl p line line_no raw =
    if is_empty p.current_section
    then fail line_no 1 key_before_section raw
    else (count_dash_depth line line_no raw >>= λ counted.
        key_at_depth fl p counted.0 (trim_space counted.1) line_no raw)

-- A blank line or a comment.
unfoldable pub is_skipped : Bytes → Bool
is_skipped line = is_empty line || has_prefix line (b'!' ∷ [])

-- The body of the loop in `parse`.
unfoldable pub parse_line : Floats → Parser → ℕ → Bytes → Result Parser
parse_line fl p line_no raw =
    let line = trim_space raw in
    if is_skipped line
    then ok p
    else if has_prefix line (b'[' ∷ [])
    then handle_section_header p line line_no raw
    else if has_prefix line (b'-' ∷ [])
    then handle_key_line fl p line line_no raw
    else fail line_no 1 (unexpected_line line) raw

-- `seen` lines stand before these.
unfoldable pub parse_lines : Floats → Parser → ℕ → List Bytes → Result Parser
parse_lines fl p seen [] = ok p
parse_lines fl p seen (raw ∷ lines) =
    parse_line fl p (seen + 1) raw >>= λ q. parse_lines fl q (seen + 1) lines

abbrev pub start : Parser
start = record {
  store = new_hk_config.store;
  sections = new_hk_config.sections;
  current_section = [];
  node_stack = [];
  key_stack = [];
}

unfoldable pub parse : Floats → List Bytes → Result HkConfig
parse fl lines =
    parse_lines fl start 0 lines >>= λ p. ok (record { store = p.store; sections = p.sections })

unfoldable pub parse_string : Floats → Bytes → Result HkConfig
parse_string fl input = parse fl (split b'\n' input)
