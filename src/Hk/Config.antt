-- ===== src/Hk/Config.antt =====
-- internal/hk/config.go: a section by name, and a value by its dotted path.
use hacker_os_builder.Prelude.{
  ℕ, zero, suc, Option, none, some, List, [], ◌∷◌, if◌then◌else◌, Bytes,
}
use hacker_os_builder.Text.Decimal.{ℤ, pos, negsuc}
use hacker_os_builder.Hk.Errors.{Result, ok, err, panic, invalid_reference, ◌>>=◌}
use hacker_os_builder.Hk.OrderedMap.{get}
use hacker_os_builder.Hk.Path.{ArrayIndex, split_path, parse_array_index}
use hacker_os_builder.Hk.Value.{HkValue, Items, nil, cons, as_array, as_map, must_get}
use hacker_os_builder.Hk.Store.{Store, HkConfig}

-- The address of the section's map.
unfoldable pub section : HkConfig → Bytes → Result ℕ
section c name = must_get (c.store.cell c.sections) name >>= as_map

abbrev pub item : Items → ℕ → Option HkValue
item nil n = none
item (cons x xs) zero = some x
item (cons x xs) (suc n) = item xs n

-- `arr[idx]`, with the tests `idx < 0` and `idx >= len(arr)`.
unfoldable pub index_array : Bytes → Result Items → ℤ → Result HkValue
index_array path (ok xs) (pos n) = elim (item xs n) [
  | none ↦ err (invalid_reference path)
  | some v ↦ ok v
]
index_array path (ok xs) (negsuc n) = err (invalid_reference path)
index_array path _ idx = err (invalid_reference path)

unfoldable pub select : Bytes → ArrayIndex → HkValue → Result HkValue
unfolding index_array as_array
select path ai next = if ai.has_index then index_array path (as_array next) ai.index else ok next

-- One round of the loop in Get.
unfoldable pub get_step : Store → Bytes → HkValue → Bytes → Result HkValue
get_step s path cur seg =
    let ai = parse_array_index seg in
    elim (as_map cur) [
      | ok m ↦ elim (get (s.cell m) ai.base) [
        | none ↦ err (invalid_reference path)
        | some next ↦ select path ai next
      ]
      | err e ↦ err (invalid_reference path)
      | panic ↦ panic
    ]

unfoldable pub get_loop : Store → Bytes → HkValue → List Bytes → Result HkValue
get_loop s path cur [] = ok cur
get_loop s path cur (seg ∷ segs) = get_step s path cur seg >>= λ v. get_loop s path v segs

unfoldable pub get_segments : HkConfig → Bytes → List Bytes → Result HkValue
get_segments c path [] = err (invalid_reference path)
get_segments c path (name ∷ segs) = elim (get (c.store.cell c.sections) name) [
  | none ↦ err (invalid_reference path)
  | some cur ↦ get_loop c.store path cur segs
]

unfoldable pub get_path : HkConfig → Bytes → Result HkValue
get_path c path = get_segments c path (split_path path)
