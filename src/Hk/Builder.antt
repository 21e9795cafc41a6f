-- ===== src/Hk/Builder.antt =====
-- internal/hk/builder.go: a configuration built section by section, in the store.
use hacker_os_builder.Prelude.{ℕ, Option, none, some, Bytes}
use hacker_os_builder.Hk.Errors.{Result, ok, panic}
use hacker_os_builder.Hk.OrderedMap.{get}
use hacker_os_builder.Hk.Value.{HkValue, map, as_map}
use hacker_os_builder.Hk.Store.{alloc, set_at, HkConfig}

-- The pointer of a SectionBuilder; `none` is nil.
abbrev pub SectionBuilder : Type 0
SectionBuilder = Option ℕ

-- `m, _ = existing.AsMap()`
abbrev pub pointer : Result ℕ → SectionBuilder
pointer (ok m) = some m
pointer _ = none

-- Builder.Section
unfoldable pub builder_section : HkConfig → Bytes → HkConfig × SectionBuilder
unfolding as_map
builder_section c name = elim (get (c.store.cell c.sections) name) [
  | some existing ↦ (c, pointer (as_map existing))
  | none ↦ (
    record c { store = set_at (alloc c.store) c.sections name (map c.store.next) },
    some c.store.next,
  )
]

-- SectionBuilder.Set, which dereferences the pointer.
unfoldable pub builder_set : HkConfig → SectionBuilder → Bytes → HkValue → Result HkConfig
builder_set c none key val = panic
builder_set c (some m) key val = ok (record c { store = set_at c.store m key val })

-- The map of the key, or a new one where there is none or where it holds no map.
unfoldable pub sub_map_at : HkConfig → ℕ → Bytes → SectionBuilder → HkConfig × ℕ
sub_map_at c m key (some sub) = (c, sub)
sub_map_at c m key none =
    (record c { store = set_at (alloc c.store) m key (map c.store.next) }, c.store.next)

abbrev pub pointer_at : Option HkValue → SectionBuilder
pointer_at none = none
pointer_at (some v) = elim v [ map m ↦ some m | _ ↦ none ]

-- SectionBuilder.SubMap
unfoldable pub sub_map : HkConfig → SectionBuilder → Bytes → Result (HkConfig × ℕ)
unfolding sub_map_at
sub_map c none key = panic
sub_map c (some m) key = ok (sub_map_at c m key (pointer_at (get (c.store.cell m) key)))
