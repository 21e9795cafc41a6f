-- ===== src/Hk/Store.antt =====
-- The memory that the pointers to OrderedMap lead into. The source shares maps by pointer: the
-- parser writes through its stack into maps that already hang in the configuration. An address
-- below `next` is in use; `NewOrderedMap` takes the next one.
pub mod WellFormed
use hacker_os_builder.Prelude.{ℕ, ◌+◌, ◌==◌, if◌then◌else◌, Bytes}
use hacker_os_builder.Hk.OrderedMap.{OrderedMap, set, new_ordered_map}
use hacker_os_builder.Hk.Value.{HkValue}

pub record Store : Type 0 where
  pub next : ℕ
  pub cell : ℕ → OrderedMap HkValue

abbrev pub no_store : Store
no_store = record { next = 0; cell = λ a. new_ordered_map }

unfoldable pub write : Store → ℕ → OrderedMap HkValue → Store
write s a m = record s { cell = λ b. if a == b then m else s.cell b }

-- `NewOrderedMap()`: the new address is the old `next`.
unfoldable pub alloc : Store → Store
unfolding write
alloc s = record { next = s.next + 1; cell = (write s s.next new_ordered_map).cell }

-- `m.Set(key, val)` for the map at an address.
unfoldable pub set_at : Store → ℕ → Bytes → HkValue → Store
unfolding write
set_at s a key val = write s a (set (s.cell a) key val)

-- internal/hk/config.go
pub record HkConfig : Type 0 where
  pub store : Store
  pub sections : ℕ

unfoldable pub new_hk_config : HkConfig
new_hk_config = record { store = alloc no_store; sections = 0 }
