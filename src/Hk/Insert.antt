-- ===== src/Hk/Insert.antt =====
-- internal/hk/parser.go, insertWithDotExpansion.
pub mod Steps
pub mod Leaf
pub mod Laws
pub mod Lookup
use hacker_os_builder.Prelude.{
  ℕ, Bool, true, false, not, ◌&&◌, Option, none, some, List, [], ◌∷◌, ◌++◌, if◌then◌else◌, Bytes,
}
use hacker_os_builder.Text.Pieces.{join}
use hacker_os_builder.Hk.Errors.{Result, ok, err, panic, key_conflict}
use hacker_os_builder.Hk.OrderedMap.{get}
use hacker_os_builder.Hk.Path.{split_path}
use hacker_os_builder.Hk.Value.{HkValue, map, is_map, as_map}
use hacker_os_builder.Hk.Store.{Store, alloc, set_at}

-- `existing.Kind == KindMap && value.Kind != KindMap`, where the key exists
abbrev pub conflicts : Option HkValue → HkValue → Bool
conflicts none value = false
conflicts (some existing) value = is_map existing && not (is_map value)

-- The conflict test and the Set at the end of both ways; `key` is what the error names.
unfoldable pub put_leaf : Store → ℕ → Bytes → Bytes → HkValue → Result Store
put_leaf s target name key value =
    if conflicts (get (s.cell target) name) value
    then err (key_conflict key)
    else ok (set_at s target name value)

-- The walk over the segments, of which `seg` is the next one and `seen` are those before it.
unfoldable pub insert_segments :
    Store → ℕ → List Bytes → Bytes → HkValue → Bytes → List Bytes → Result Store
insert_segments s cur seen key value seg [] = put_leaf s cur seg key value
insert_segments s cur seen key value seg (next ∷ rest) = elim (get (s.cell cur) seg) [
  | none ↦
      insert_segments (set_at (alloc s) cur seg (map s.next)) s.next (seen ++ seg ∷ []) key value
        next rest
  | some existing ↦ elim (as_map existing) [
    | ok m ↦ insert_segments s m (seen ++ seg ∷ []) key value next rest
    | err e ↦ err (key_conflict (join (b'.' ∷ []) (seen ++ seg ∷ [])))
    | panic ↦ panic
  ]
]

unfoldable pub insert_at : Store → ℕ → Bytes → HkValue → List Bytes → Result Store
insert_at s target key value (seg ∷ next ∷ rest) =
    insert_segments s target [] key value seg (next ∷ rest)
insert_at s target key value _ = put_leaf s target key key value

unfoldable pub insert_with_dot_expansion : Store → ℕ → Bytes → HkValue → Result Store
insert_with_dot_expansion s target key value = insert_at s target key value (split_path key)
