-- ===== src/Hk/Parser/Steps.antt =====
-- The cases of steps of the parser, as equations.
use hacker_os_builder.Prelude.{
  ◌+◌, refl, drop, get_elem?, get_elem?-fits, arith, Bool-cases, inl, inr, ℕ, false, none, some,
  Bytes, ◌≡◌,
}
use hacker_os_builder.Hk.Errors.{ok, err, key_conflict}
use hacker_os_builder.Hk.OrderedMap.{get}
use hacker_os_builder.Hk.Value.{HkValue, string, map, is_map, as_map}
use hacker_os_builder.Hk.Store.{alloc, set_at}
use hacker_os_builder.Hk.LexValue.{cut_ends, is_quoted}
use hacker_os_builder.Hk.LexValue.Total.{inner-is_quoted}
use hacker_os_builder.Text.Search.{index, index-fits}
use hacker_os_builder.Hk.Parser.{
  strip_quotes, slice_from, arrow_text, Parser, open_section, enter_section,
}

pub strip_quotes_total : (s : Bytes) → (key : Bytes) × (strip_quotes s ≡ ok key)
unfolding strip_quotes
strip_quotes_total s = elim (Bool-cases (is_quoted s)) [
  | inl quoted ↦ (cut_ends s, rw quoted (inner-is_quoted s quoted))
  | inr plain ↦ (s, rw plain refl)
]

-- A slice from behind what was found is in range.
pub slice_from-index :
    (rest : Bytes) (arrow : ℕ)
    → index rest arrow_text ≡ some arrow
    → slice_from (arrow + 2) rest ≡ ok (drop (arrow + 2) rest)
unfolding slice_from
slice_from-index rest arrow h =
    let fits = index-fits rest arrow_text arrow h in ground (arith, fits)

pub slice_from-get_elem? :
    (line : Bytes) (i c : ℕ)
    → get_elem? line i ≡ some c
    → slice_from (i + 1) line ≡ ok (drop (i + 1) line)
unfolding slice_from
slice_from-get_elem? line i c h = let fits = get_elem?-fits line i c h in ground (arith, fits)

module _ (p : Parser) (name : Bytes) where
  pub enter_section-absent :
      get (p.store.cell p.sections) name ≡ none
      → enter_section p name
        ≡ ok (
            open_section p name
              (set_at (alloc p.store) p.sections name (map p.store.next))
              p.store.next)
  unfolding enter_section
  enter_section-absent h = rw (h, enter_section)

  pub enter_section-map :
      (m : ℕ)
      → get (p.store.cell p.sections) name ≡ some (map m)
      → enter_section p name ≡ ok (open_section p name p.store m)
  unfolding enter_section as_map
  enter_section-map m h = rw (h, enter_section)

  pub enter_section-other :
      (v : HkValue)
      → get (p.store.cell p.sections) name ≡ some v
      → is_map v ≡ false
      → enter_section p name ≡ err (key_conflict name)
  unfolding enter_section as_map
  enter_section-other (map m) h k = cc
  enter_section-other (string x) h k = rw (h, enter_section)
  enter_section-other _ h k = rw (h, enter_section)
