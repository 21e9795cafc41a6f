-- ===== src/Tests/HkTheorems.antt =====
-- The theorems about internal/hk at concrete inputs.
use hacker_os_builder.Prelude.{
  ℕ, ◌<◌, true, false, some, List, [], ◌∷◌, ◌++◌, Bytes, codes, ◌≡◌, refl, arith,
}
use hacker_os_builder.Text.Search.{has_byte, contains_any}
use hacker_os_builder.Text.Decimal.{print_ℕ}
use hacker_os_builder.Text.Pieces.{join}
use hacker_os_builder.Hk.Errors.{Result, ok}
use hacker_os_builder.Hk.OrderedMap.{OrderedMap, get, set, new_ordered_map}
use hacker_os_builder.Hk.OrderedMap.Laws.{
  IsValid, new_ordered_map-IsValid, set-IsValid, entries, entries-set, upsert,
}
use hacker_os_builder.Hk.Value.{HkValue, string, number, map, is_map, Items, array}
use hacker_os_builder.Hk.Path.{split_path, parse_array_index}
use hacker_os_builder.Hk.Path.Laws.{split_path-join, parse_array_index-print_ℕ}
use hacker_os_builder.Hk.LexValue.{parse_scalar_or_array}
use hacker_os_builder.Hk.LexValue.Total.{parse_scalar_or_array_total}
use hacker_os_builder.Hk.Literal.{needs_quotes, looks_like_number_or_bool, serialize_string}
use hacker_os_builder.Hk.Literal.RoundTrip.{
  looks_like_array, parse-serialize_string, parse-serialize_string_bracketed,
}
use hacker_os_builder.Text.Decimal.{pos}
use hacker_os_builder.Hk.Store.{Store, no_store, HkConfig, new_hk_config}
use hacker_os_builder.Hk.Store.WellFormed.{IsWellFormed}
use hacker_os_builder.Hk.Config.{get_path}
use hacker_os_builder.Hk.Insert.{insert_with_dot_expansion}
use hacker_os_builder.Hk.Insert.Lookup.{get_path-insert}
use hacker_os_builder.Hk.Parser.{parse}
use hacker_os_builder.Hk.Parser.Invariant.{parse-IsWellFormed}
use hacker_os_builder.Hk.Serialize.{serialize}
use hacker_os_builder.Hk.Serialize.Total.{serialize-parse}
use hacker_os_builder.Tests.Floats.{naturals}
use hacker_os_builder.Tests.Hk.{parsed}

abbrev lines : List Bytes
lines = codes "[a]" ∷ codes "-> sub" ∷ codes "--> x => 1" ∷ codes "-> b.c => two" ∷ []

-- the configuration of an accepted text
abbrev pub config_of : Result HkConfig → HkConfig
config_of (ok c) = c
config_of _ = new_hk_config

abbrev config : HkConfig
config = config_of (parse naturals lines)

lines-accepted : parse naturals lines ≡ ok config
unfolding parsed
lines-accepted = refl

parse-IsWellFormed_example :
    (rank : ℕ → ℕ) × IsWellFormed config.store rank × (config.sections < config.store.next)
parse-IsWellFormed_example = parse-IsWellFormed naturals lines config lines-accepted

serialize-parse_example : (text : Bytes) × (serialize naturals config ≡ ok text)
serialize-parse_example = serialize-parse naturals lines config lines-accepted

abbrev bad_lines : List Bytes
bad_lines = codes "[a]" ∷ codes "-> x => 1" ∷ codes "---> y => 2" ∷ []

-- A text that reads like a number is quoted.
number_text-plain : looks_like_array naturals (codes "42") ≡ false
unfolding parsed
number_text-plain = refl

parse-serialize_string_example :
    parse_scalar_or_array naturals (serialize_string naturals (codes "42"))
    ≡ ok (string (codes "42"))
parse-serialize_string_example = parse-serialize_string naturals (codes "42") number_text-plain

bracketed : looks_like_array naturals (codes "[a]") ≡ true
unfolding parsed needs_quotes looks_like_number_or_bool contains_any has_byte
bracketed = refl

parse-serialize_string_bracketed_example :
    (xs : Items) × (parse_scalar_or_array naturals (serialize_string naturals (codes "[a]"))
      ≡ ok (array xs))
parse-serialize_string_bracketed_example =
    parse-serialize_string_bracketed naturals (codes "[a]") bracketed

parse_scalar_or_array_total_example :
    (v : HkValue) × (parse_scalar_or_array naturals (codes "[1, x") ≡ ok v) × (is_map v ≡ false)
parse_scalar_or_array_total_example = parse_scalar_or_array_total naturals (codes "[1, x")

abbrev one_entry : OrderedMap ℕ
one_entry = set new_ordered_map (codes "k") 1

one_entry-IsValid : IsValid one_entry
one_entry-IsValid = set-IsValid new_ordered_map (codes "k") 1 new_ordered_map-IsValid

entries-set_example :
    entries (set one_entry (codes "k") 3) ≡ upsert (codes "k") 3 (entries one_entry)
entries-set_example = entries-set one_entry (codes "k") 3 one_entry-IsValid

split_path-join_example :
    split_path (join (b'.' ∷ []) (codes "a" ∷ codes "b" ∷ [])) ≡ codes "a" ∷ codes "b" ∷ []
split_path-join_example =
    split_path-join (codes "a") (codes "b" ∷ []) (λ e. cc) ((refl, tt), ((refl, tt), tt))

parse_array_index-print_ℕ_example :
    parse_array_index (codes "xs" ++ b'[' ∷ (print_ℕ 12 ++ b']' ∷ []))
    ≡ record { index = pos 12; has_index = true; base = codes "xs" }
unfolding has_byte
parse_array_index-print_ℕ_example =
    parse_array_index-print_ℕ (codes "xs") 12 refl refl (omega arith)

-- the map of the section "a" in the configuration
section_a : get (config.store.cell config.sections) (codes "a") ≡ some (map 1)
unfolding parsed
section_a = refl

abbrev store_of : Result Store → Store
store_of (ok s) = s
store_of _ = no_store

abbrev longer : Store
longer = store_of (
    insert_with_dot_expansion config.store 1 (join (b'.' ∷ []) (codes "n" ∷ codes "m" ∷ []))
      (number 5))

longer-inserted :
    insert_with_dot_expansion config.store 1
      (join (b'.' ∷ []) (codes "n" ∷ codes "m" ∷ []))
      (number 5)
    ≡ ok longer
unfolding parsed join
longer-inserted = refl

get_path-insert_example :
    get_path
      (record { store = longer; sections = config.sections })
      (join (b'.' ∷ []) (codes "a" ∷ codes "n" ∷ codes "m" ∷ []))
    ≡ ok (number 5)
unfolding has_byte
get_path-insert_example =
    let (rank, wf, root) = parse-IsWellFormed naturals lines config lines-accepted in
    get_path-insert config rank (codes "a") (codes "n") (codes "m" ∷ []) 1 (number 5) longer wf root
      section_a tt (λ e. cc) (λ e. cc) ((refl, tt), ((refl, tt), ((refl, tt), tt)))
      (refl, (refl, tt)) longer-inserted
