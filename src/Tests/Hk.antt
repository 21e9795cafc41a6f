-- ===== src/Tests/Hk.antt =====
-- internal/hk/parser_test.go, and the theorems about internal/hk at concrete inputs.
use hacker_os_builder.Prelude.{[], ◌∷◌, true, codes, String, equal, ◌≡◌, refl}
use hacker_os_builder.Text.Search.{has_prefix, has_suffix, index, index_byte, to_lower}
use hacker_os_builder.Text.Space.{is_space, skip, space_width, space_width_back, trim_space}
use hacker_os_builder.Text.Runes.{reencode}
use hacker_os_builder.Text.Pieces.{split, join}
use hacker_os_builder.Text.Decimal.{negsuc}
use hacker_os_builder.Hk.Errors.{
  key_before_section, parse_error, key_conflict, Result, ok, err, ◌>>=◌,
}
use hacker_os_builder.Hk.OrderedMap.{get, set, new_ordered_map}
use hacker_os_builder.Hk.Value.{HkValue, string, number, as_array, as_map}
use hacker_os_builder.Hk.Path.{index_digits, index_in, parse_array_index, split_from, split_path}
use hacker_os_builder.Hk.LexValue.{
  inner, array_inner, is_bracketed, is_quoted, parse_array_literal, parse_elements, parse_scalar,
  parse_scalar_or_array, plain_scalar, split_array_elements, split_elements_from, trimmed_scalar,
  unescape_byte, unescape_from, unescape_string, unquoted_scalar,
}
use hacker_os_builder.Hk.Store.{HkConfig, new_hk_config, alloc, set_at, write}
use hacker_os_builder.Hk.Config.{get_loop, get_path, get_segments, get_step, index_array, select}
use hacker_os_builder.Hk.Insert.{insert_at, insert_segments, insert_with_dot_expansion, put_leaf}
use hacker_os_builder.Hk.Parser.{
  assign, assign_value, count_dash_depth, dashes, enter_section, handle_key_line,
  handle_section_header, is_skipped, key_at_depth, key_in_map, open_map, open_section, parse,
  parse_line, parse_lines, parse_string, strip_quotes, named_section, slice_from,
}
use hacker_os_builder.Tests.Floats.{naturals}

-- ParseString, with all that it calls open to computation.
unfoldable pub parsed : String → Result HkConfig
unfolding naturals parse_string parse parse_lines parse_line split is_skipped trim_space is_space
    skip space_width space_width_back has_prefix has_suffix handle_section_header enter_section
    open_section get set new_ordered_map new_hk_config alloc set_at write handle_key_line
    count_dash_depth dashes key_at_depth key_in_map open_map assign assign_value strip_quotes index
    equal to_lower insert_at insert_segments insert_with_dot_expansion put_leaf split_from
    split_path reencode array_inner is_bracketed is_quoted parse_array_literal parse_elements
    parse_scalar parse_scalar_or_array plain_scalar split_array_elements split_elements_from
    named_section slice_from inner trimmed_scalar unescape_byte unescape_from unescape_string
    unquoted_scalar as_map as_array
parsed text = parse_string naturals (codes text)

unfoldable pub read : String → String → Result HkValue
unfolding parsed get_loop get_path get_segments get_step index_array select index_digits index_in
    parse_array_index index_byte
read text path = parsed text >>= λ c. get_path c (codes path)

nested_keys : read "[a]\n-> sub\n--> x => 1\n--> y => 2\n" "a.sub.y" ≡ ok (number 2)
unfolding read
nested_keys = refl

dotted_key : read "[a]\n-> b.c => wartosc\n" "a.b.c" ≡ ok (string (codes "wartosc"))
unfolding read
dotted_key = refl

array_element :
    read "! x\n[a]\n-> items => [1, \"2, 3\", 4]\n" "a.items[1]" ≡ ok (string (codes "2, 3"))
unfolding read
array_element = refl

escapes : read "[a]\n-> s => \"linia1\\nlinia2\"\n" "a.s" ≡ ok (string (codes "linia1\nlinia2"))
unfolding read
escapes = refl

key_before_section_test :
    parsed "-> klucz => wartosc\n"
    ≡ err (
        parse_error (record {
          line = 1;
          column = 1;
          reason = key_before_section;
          source_line = codes "-> klucz => wartosc";
        }))
unfolding parsed
key_before_section_test = refl

-- A comment behind a value is a part of the value.
trailing_comment :
    read "[account]\n-> type => user            ! user" "account.type"
    ≡ ok (string (codes "user            ! user"))
unfolding read
trailing_comment = refl

conflict : parsed "[a]\n-> x => 1\n-> x.y => 2\n" ≡ err (key_conflict (codes "x"))
unfolding parsed join
conflict = refl

split_path_runs : split_path (codes "a.\"b.c\".d.") ≡ codes "a" ∷ codes "b.c" ∷ codes "d" ∷ [] ∷ []
unfolding split_path reencode
split_path_runs = refl

parse_array_index_runs :
    parse_array_index (codes "xs[-12]y")
    ≡ record { index = negsuc 11; has_index = true; base = codes "xs" }
unfolding parse_array_index index_in
parse_array_index_runs = refl
