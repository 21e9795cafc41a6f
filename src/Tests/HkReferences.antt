-- ===== src/Tests/HkReferences.antt =====
-- internal/hk/parser_test.go on interpolation, and the theorems about interpolate.go at concrete
-- inputs.
use hacker_os_builder.Prelude.{
  true, false, List, [], ◌∷◌, ◌++◌, Bytes, codes, String, equal, mem, ◌≡◌, refl, ◌≢◌, ap,
}
use hacker_os_builder.Text.Search.{has_byte, has_prefix, index, contains, trim_prefix}
use hacker_os_builder.Hk.Errors.{Result, ok, err, cyclic_reference, invalid_reference, ◌>>=◌}
use hacker_os_builder.Hk.Value.{HkValue, string, as_string, format_number}
use hacker_os_builder.Hk.Store.{HkConfig}
use hacker_os_builder.Hk.Config.{get_path}
use hacker_os_builder.Hk.Parser.{parse}
use hacker_os_builder.Hk.Parser.Invariant.{parse-IsWellFormed}
use hacker_os_builder.Hk.Interpolate.{
  Surroundings, text_loop, resolve_value, resolve_found, resolve_ref, resolve_string, resolve_items,
  resolve_entry, resolve_keys, resolve_map, refs_from, refs_of, refs_of_all, texts_of,
  texts_of_items, texts_of_keys, texts_below, reachable, resolve_text, resolve_interpolations,
}
use hacker_os_builder.Hk.Interpolate.Terminates.{Outcome}
use hacker_os_builder.Hk.Interpolate.Settled.{IsResolved, resolve_interpolations_total}
use hacker_os_builder.Hk.Interpolate.Laws.{
  reference, resolve_string-reference, resolve_string_cycle,
}
use hacker_os_builder.Tests.Floats.{naturals}
use hacker_os_builder.Tests.Hk.{parsed, read}
use hacker_os_builder.Tests.HkTheorems.{config_of}

abbrev pub shell : Surroundings
shell = record { floats = naturals; getenv = λ name. codes "value" }

-- ParseString and ResolveInterpolations, then Get.
unfoldable pub resolved : String → String → Result HkValue
unfolding read text_loop resolve_value resolve_found resolve_ref resolve_string resolve_items
    resolve_entry resolve_keys resolve_map refs_from refs_of refs_of_all texts_of texts_of_items
    texts_of_keys texts_below reachable resolve_text resolve_interpolations contains trim_prefix
    as_string mem format_number
resolved text path =
    parsed text >>= λ c. (resolve_interpolations shell c >>= λ d. get_path d (codes path))

chain :
    resolved "[a]\n-> x => \"<${a.y}>\"\n-> y => ${b.z}\n[b]\n-> z => end\n" "a.x"
    ≡ ok (string (codes "<end>"))
unfolding resolved
chain = refl

from_environment : resolved "[a]\n-> x => ${env:HOME}!\n" "a.x" ≡ ok (string (codes "value!"))
unfolding resolved
from_environment = refl

cycle :
    resolved "[a]\n-> x => ${a.y}\n-> y => ${a.x}\n" "a.x" ≡ err (cyclic_reference (codes "a.y"))
unfolding resolved
cycle = refl

missing : resolved "[a]\n-> x => ${a.y}\n" "a.x" ≡ err (invalid_reference (codes "a.y"))
unfolding resolved
missing = refl

abbrev cyclic_lines : List Bytes
cyclic_lines = codes "[a]" ∷ codes "-> x => ${a.y}" ∷ codes "-> y => ${a.x}" ∷ []

abbrev cyclic : HkConfig
cyclic = config_of (parse naturals cyclic_lines)

cyclic-accepted : parse naturals cyclic_lines ≡ ok cyclic
unfolding parsed
cyclic-accepted = refl

resolve_interpolations_total_example :
    Outcome
      (IsResolved (parse-IsWellFormed naturals cyclic_lines cyclic cyclic-accepted).0 cyclic)
      (resolve_interpolations shell cyclic)
resolve_interpolations_total_example =
    let (rank, wf, root) = parse-IsWellFormed naturals cyclic_lines cyclic cyclic-accepted in
    resolve_interpolations_total shell cyclic rank wf root

resolve_string-reference_example :
    resolve_string shell 2 cyclic [] (codes "b.c") (codes "<${a.x}>") ≡ (
      resolve_ref shell (resolve_string shell 1 cyclic) cyclic [] (codes "b.c") (codes "a.x")
      >>= λ resolved. ok (codes "<" ++ (resolved ++ codes ">")))
unfolding has_byte index has_prefix
resolve_string-reference_example =
    resolve_string-reference shell 1 cyclic [] (codes "b.c") (codes "<") (codes "a.x") (codes ">")
      refl refl refl

names-differ : codes "a.x" ≢ codes "a.y"
unfolding equal
names-differ e = let h : true ≡ false = ap (equal (codes "a.x")) e in cc

resolve_string_cycle_example :
    resolve_string shell 3 cyclic [] (codes "a.x") (reference (codes "a.y"))
    ≡ err (cyclic_reference (codes "a.y"))
unfolding read has_byte has_prefix
resolve_string_cycle_example =
    resolve_string_cycle shell 0 cyclic (codes "a.x") (codes "a.y") refl refl refl refl names-differ
      refl refl
