-- ===== src/Hk/Serialize.antt =====
-- internal/hk/serialize.go: a configuration to text. The recursion over the maps takes fuel.
pub mod Total
use hacker_os_builder.Prelude.{
  ℕ, zero, suc, ◌+◌, Option, none, some, List, [], ◌∷◌, ◌++◌, Bytes, reverse, codes, ◌==◌,
  if◌then◌else◌,
}
use hacker_os_builder.Text.Pieces.{repeat}
use hacker_os_builder.Hk.Errors.{Result, ok, err, panic, ◌>>=◌}
use hacker_os_builder.Hk.OrderedMap.{OrderedMap, get}
use hacker_os_builder.Hk.Value.{Floats, HkValue, string, number, bool, array, map, as_map}
use hacker_os_builder.Hk.Literal.{serialize_scalar_or_array}
use hacker_os_builder.Hk.Store.{Store, HkConfig}

abbrev pub prefix : ℕ → Bytes
prefix depth = repeat (b'-' ∷ []) depth ++ b'>' ∷ []

-- `val, _ := m.Get(key)`: the zero value is the empty string.
abbrev pub or_zero : Option HkValue → HkValue
or_zero none = string []
or_zero (some v) = v

-- The line of one entry, with the lines below it; `below` writes a map at the next depth.
unfoldable pub entry_lines : Floats → (ℕ → ℕ → Result Bytes) → ℕ → Bytes → HkValue → Result Bytes
entry_lines fl below depth key (map m) =
    below m (depth + 1) >>= λ rest. ok ((prefix depth ++ b' ' ∷ (key ++ b'\n' ∷ [])) ++ rest)
entry_lines fl below depth key val = ok (
    prefix depth
    ++ b' ' ∷ (key ++ (codes " => " ++ (serialize_scalar_or_array fl val ++ b'\n' ∷ []))))

unfoldable pub keys_lines :
    Floats → (ℕ → ℕ → Result Bytes) → OrderedMap HkValue → ℕ → List Bytes → Result Bytes
keys_lines fl below m depth [] = ok []
keys_lines fl below m depth (key ∷ keys) =
    let later = keys_lines fl below m depth keys in
    entry_lines fl below depth key (or_zero (get m key)) >>= λ line.
    later >>= λ rest. ok (line ++ rest)

unfoldable pub write_map_lines : Floats → ℕ → Store → ℕ → ℕ → Result Bytes
write_map_lines fl zero s a depth = panic
write_map_lines fl (suc fuel) s a depth =
    keys_lines fl (write_map_lines fl fuel s) (s.cell a) depth (s.cell a).keys

-- A section that is no map is left out.
unfoldable pub section_lines : Floats → HkConfig → Bytes → HkValue → Result Bytes
section_lines fl c name (map m) = write_map_lines fl c.store.next c.store m 1 >>= λ lines.
    ok (b'[' ∷ (name ++ (b']' ∷ b'\n' ∷ lines) ++ b'\n' ∷ []))
section_lines fl c name val = ok []

unfoldable pub sections_lines : Floats → HkConfig → List Bytes → Result Bytes
sections_lines fl c [] = ok []
sections_lines fl c (name ∷ names) =
    let later = sections_lines fl c names in
    section_lines fl c name (or_zero (get (c.store.cell c.sections) name)) >>= λ lines.
    later >>= λ rest. ok (lines ++ rest)

-- `strings.TrimRight(s, "\n")`, on the reversed text
drop_newlines : Bytes → Bytes
drop_newlines [] = []
drop_newlines (c ∷ s) = let rest = drop_newlines s in if c == b'\n' then rest else c ∷ s

unfoldable pub trim_newlines : Bytes → Bytes
unfolding drop_newlines
trim_newlines s = reverse (drop_newlines (reverse s))

unfoldable pub serialize : Floats → HkConfig → Result Bytes
serialize fl c = sections_lines fl c (c.store.cell c.sections).keys >>= λ text.
    ok (trim_newlines text ++ b'\n' ∷ [])
