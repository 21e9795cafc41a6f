-- ===== src/Hk/Insert/Leaf.antt =====
-- The insertion of a value under the last segment of a key.
use hacker_os_builder.Prelude.{
  ℕ, ◌+◌, ◌≤◌, ◌<◌, false, none, some, List, [], ◌∷◌, Bytes, All, ◌≡◌, ◌≢◌, refl, arith,
}
use hacker_os_builder.Text.Search.{index_byte, has_byte}
use hacker_os_builder.Hk.Errors.{ok}
use hacker_os_builder.Hk.OrderedMap.{get}
use hacker_os_builder.Hk.Path.{parse_array_index, no_index}
use hacker_os_builder.Hk.Value.{HkValue, string, number, bool, array, map, is_map, as_map}
use hacker_os_builder.Hk.Store.{Store, set_at}
use hacker_os_builder.Hk.Store.WellFormed.{
  IsWellFormed, IsDetached, rank_at, set_at-cell_ne, get-set_at_self, next-set_at,
  set_at-IsWellFormed, link-IsWellFormed,
}
use hacker_os_builder.Hk.Config.{get_step, get_loop, select}

-- A map that is inserted is a detached one; any other value is free.
abbrev pub IsNew : Store → (ℕ → ℕ) → HkValue → ℕ → Type 0
IsNew s rank (map d) cur = IsDetached s rank d × (cur ≢ d)
IsNew s rank _ cur = Unit

pub IsNew-leaf :
    (s : Store) (rank : ℕ → ℕ) (value : HkValue) (cur : ℕ)
    → is_map value ≡ false
    → IsNew s rank value cur
IsNew-leaf s rank (map d) cur h = cc
IsNew-leaf s rank (string x) cur h = tt
IsNew-leaf s rank _ cur h = tt

abbrev pub IsPlainSegment : Bytes → Type 0
IsPlainSegment seg = has_byte b'[' seg ≡ false

index_byte-none : (c : ℕ) (s : Bytes) → has_byte c s ≡ false → index_byte s c ≡ none
unfolding index_byte has_byte
index_byte-none c [] h = refl
index_byte-none c (x ∷ s) h = ground (arith, index_byte-none c s)

parse_array_index-plain : (seg : Bytes) → IsPlainSegment seg → parse_array_index seg ≡ no_index seg
unfolding parse_array_index
parse_array_index-plain seg h = rw (index_byte-none b'[' seg h, parse_array_index)

-- One step down a plain segment.
pub get_step-plain :
    (s : Store) (path : Bytes) (m : ℕ) (seg : Bytes) (v : HkValue)
    → IsPlainSegment seg
    → get (s.cell m) seg ≡ some v
    → get_step s path (map m) seg ≡ ok v
unfolding get_step as_map select
get_step-plain s path m seg v plain h =
    rw (parse_array_index-plain seg plain, get_step)
      (rw (h, get_step) (rw (parse_array_index-plain seg plain)))

pub record Inserted (s : Store) (rank : ℕ → ℕ) (cur : ℕ) (s' : Store) (value : HkValue)
    (segs : List Bytes) : Type 0 where
  pub rank' : ℕ → ℕ
  pub well_formed : IsWellFormed s' rank'
  pub grows : s.next ≤ s'.next
  pub frame : (a : ℕ) → a < s.next → a ≢ cur → rank a ≤ rank cur → s'.cell a ≡ s.cell a
  pub found : (path : Bytes) → All IsPlainSegment segs → get_loop s' path (map cur) segs ≡ ok value

pub rank_ne : (rank : ℕ → ℕ) (a b : ℕ) → rank a < rank b → a ≢ b
rank_ne rank a b h = λ e. ground (arith, h, e)

rank-set_at : (ℕ → ℕ) → ℕ → HkValue → ℕ → ℕ
rank-set_at rank cur (map d) = rank_at rank d (rank cur + 1)
rank-set_at rank cur _ = rank

set_at-keeps :
    (s : Store) (rank : ℕ → ℕ) (cur : ℕ) (key : Bytes) (value : HkValue)
    → IsWellFormed s rank
    → cur < s.next
    → IsNew s rank value cur
    → IsWellFormed (set_at s cur key value) (rank-set_at rank cur value)
unfolding rank-set_at
set_at-keeps s rank cur key (map d) wf lt new = link-IsWellFormed s rank wf cur key d lt new.1 new.0
set_at-keeps s rank cur key (string x) wf lt new =
    set_at-IsWellFormed s rank wf cur key (string x) lt refl
set_at-keeps s rank cur key (number x) wf lt new =
    set_at-IsWellFormed s rank wf cur key (number x) lt refl
set_at-keeps s rank cur key (bool x) wf lt new =
    set_at-IsWellFormed s rank wf cur key (bool x) lt refl
set_at-keeps s rank cur key (array x) wf lt new =
    set_at-IsWellFormed s rank wf cur key (array x) lt refl

set_at-found :
    (s : Store) (cur : ℕ) (seg : Bytes) (value : HkValue) (path : Bytes)
    → All IsPlainSegment (seg ∷ [])
    → get_loop (set_at s cur seg value) path (map cur) (seg ∷ []) ≡ ok value
unfolding get_loop
set_at-found s cur seg value path plain = rw (
    get_step-plain (set_at s cur seg value) path cur seg value plain.0
      (get-set_at_self s cur seg value))

pub set_at-Inserted :
    (s : Store) (rank : ℕ → ℕ) (cur : ℕ) (seg : Bytes) (value : HkValue)
    → IsWellFormed s rank
    → cur < s.next
    → IsNew s rank value cur
    → Inserted s rank cur (set_at s cur seg value) value (seg ∷ [])
set_at-Inserted s rank cur seg value wf lt new = record {
  rank' = rank-set_at rank cur value;
  well_formed = set_at-keeps s rank cur seg value wf lt new;
  grows = omega (arith, next-set_at s cur seg value);
  frame = λ a h ne le. set_at-cell_ne s cur seg value a ne;
  found = set_at-found s cur seg value;
}
