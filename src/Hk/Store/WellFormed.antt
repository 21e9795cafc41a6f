-- ===== src/Hk/Store/WellFormed.antt =====
-- Well-formed stores: `rank` grows along each link between maps, and stays below the number of
-- addresses in use.
use hacker_os_builder.Prelude.{
  ℕ, ◌+◌, ◌≤◌, ◌<◌, false, none, some, ◌==◌, if◌then◌else◌, Bytes, equal, equal_refl, ◌≡◌, ◌≢◌,
  refl, ◌⊎◌, arith, Bool-cases, inl, inr,
}
use hacker_os_builder.Hk.OrderedMap.{get, new_ordered_map}
use hacker_os_builder.Hk.OrderedMap.Laws.{IsValid, set-IsValid, new_ordered_map-IsValid, get-set}
use hacker_os_builder.Hk.Value.{HkValue, string, map, is_map}
use hacker_os_builder.Hk.Store.{Store, write, alloc, set_at}

pub record IsWellFormed (s : Store) (rank : ℕ → ℕ) : Type 0 where
  pub valid : (a : ℕ) → IsValid (s.cell a)
  pub upward : (a : ℕ) (k : Bytes) (b : ℕ) → get (s.cell a) k ≡ some (map b) → rank a < rank b
  pub in_use : (a : ℕ) (k : Bytes) (b : ℕ) → get (s.cell a) k ≡ some (map b) → b < s.next
  pub fresh : (a : ℕ) (k : Bytes) → s.next ≤ a → get (s.cell a) k ≡ none
  pub bounded : (a : ℕ) → a < s.next → rank a < s.next

-- A new map that hangs nowhere yet, with room for its rank above every other one.
pub record IsDetached (s : Store) (rank : ℕ → ℕ) (d : ℕ) : Type 0 where
  pub allocated : d < s.next
  pub unlinked : (a : ℕ) (k : Bytes) → get (s.cell a) k ≢ some (map d)
  pub empty : (k : Bytes) → get (s.cell d) k ≡ none
  pub room : (a : ℕ) → a < s.next → a ≢ d → rank a + 1 < s.next

abbrev pub rank_at : (ℕ → ℕ) → ℕ → ℕ → ℕ → ℕ
rank_at rank d r = λ a. if d == a then r else rank a

-- reading behind a Set
pub get-set_at :
    (s : Store) (cur : ℕ) (key : Bytes) (value : HkValue) (a : ℕ) (k : Bytes)
    → get ((set_at s cur key value).cell a) k ≡ (
        if cur == a
        then (if equal key k then some value else get (s.cell a) k)
        else get (s.cell a) k)
unfolding set_at write
get-set_at s cur key value a k = ground (arith, get-set (s.cell cur) key k value)

pub get-set_at_self :
    (s : Store) (cur : ℕ) (key : Bytes) (value : HkValue)
    → get ((set_at s cur key value).cell cur) key ≡ some value
get-set_at_self s cur key value = ground (arith, get-set_at s cur key value cur key, equal_refl key)

pub alloc-cell_ne : (s : Store) (a : ℕ) → a ≢ s.next → (alloc s).cell a ≡ s.cell a
unfolding alloc write
alloc-cell_ne s a h = ground arith

pub set_at-cell_ne :
    (s : Store) (cur : ℕ) (key : Bytes) (value : HkValue) (a : ℕ)
    → a ≢ cur
    → (set_at s cur key value).cell a ≡ s.cell a
unfolding set_at write
set_at-cell_ne s cur key value a h = ground arith

pub get-alloc :
    (s : Store) (a : ℕ) (k : Bytes)
    → get ((alloc s).cell a) k ≡ (if s.next == a then none else get (s.cell a) k)
unfolding alloc write get new_ordered_map
get-alloc s a k = ground arith

set_at-IsValid :
    (s : Store) (cur : ℕ) (key : Bytes) (value : HkValue)
    → ((a : ℕ) → IsValid (s.cell a))
    → (a : ℕ) → IsValid ((set_at s cur key value).cell a)
unfolding set_at write
set_at-IsValid s cur key value h a = elim (Bool-cases (cur == a)) [
  | inl same ↦ rw same (set-IsValid (s.cell cur) key value (h cur))
  | inr other ↦ rw other (h a)
]

alloc-IsValid : (s : Store) → ((a : ℕ) → IsValid (s.cell a)) → (a : ℕ) → IsValid ((alloc s).cell a)
unfolding alloc write
alloc-IsValid s h a = elim (Bool-cases (s.next == a)) [
  | inl same ↦ rw same new_ordered_map-IsValid
  | inr other ↦ rw other (h a)
]

pub next-set_at :
    (s : Store) (cur : ℕ) (key : Bytes) (value : HkValue) → (set_at s cur key value).next ≡ s.next
unfolding set_at write
next-set_at s cur key value = refl

pub next-alloc : (s : Store) → (alloc s).next ≡ s.next + 1
unfolding alloc
next-alloc s = refl

-- A link behind a Set is the new one or an old one.
pub set_at-links :
    (s : Store) (cur : ℕ) (key : Bytes) (value : HkValue) (a : ℕ) (k : Bytes) (b : ℕ)
    → get ((set_at s cur key value).cell a) k ≡ some (map b)
    → ((a ≡ cur) × (value ≡ map b)) ⊎ (get (s.cell a) k ≡ some (map b))
set_at-links s cur key value a k b h = ground (arith, get-set_at s cur key value a k)

pub alloc-links :
    (s : Store) (a : ℕ) (k : Bytes) (b : ℕ)
    → get ((alloc s).cell a) k ≡ some (map b)
    → (a ≢ s.next) × (get (s.cell a) k ≡ some (map b))
alloc-links s a k b h = ground (arith, get-alloc s a k)

leaf-ne-map : (value : HkValue) (b : ℕ) → is_map value ≡ false → value ≢ map b
leaf-ne-map (map m) b h = cc
leaf-ne-map (string x) b h = λ e. cc
leaf-ne-map _ b h = λ e. cc

module _ (s : Store) (rank : ℕ → ℕ) (wf : IsWellFormed s rank) where
  pub alloc-IsWellFormed : IsWellFormed (alloc s) (rank_at rank s.next 0)
  alloc-IsWellFormed = record {
    valid = alloc-IsValid s wf.valid;
    upward = λ a k b h. ground (
      arith,
      alloc-links s a k b h,
      wf.upward a k b (alloc-links s a k b h).1,
      wf.in_use a k b (alloc-links s a k b h).1,
    );
    in_use = λ a k b h. omega (arith, next-alloc s, wf.in_use a k b (alloc-links s a k b h).1);
    fresh = λ a k h. ground (arith, get-alloc s a k, next-alloc s, wf.fresh a k);
    bounded = λ a h. ground (arith, next-alloc s, wf.bounded a);
  }

  pub alloc-IsDetached : IsDetached (alloc s) (rank_at rank s.next 0) s.next
  alloc-IsDetached = record {
    allocated = omega (arith, next-alloc s);
    unlinked = λ a k h.
        ground
          (arith, alloc-links s a k s.next h, wf.in_use a k s.next (alloc-links s a k s.next h).1);
    empty = λ k. ground (arith, get-alloc s s.next k);
    room = λ a h ne. ground (arith, next-alloc s, wf.bounded a);
  }

  -- Setting a value that is no map.
  pub set_at-IsWellFormed :
      (cur : ℕ) (key : Bytes) (value : HkValue)
      → cur < s.next
      → is_map value ≡ false
      → IsWellFormed (set_at s cur key value) rank
  set_at-IsWellFormed cur key value lt leaf = record {
    valid = set_at-IsValid s cur key value wf.valid;
    upward = λ a k b h. elim (set_at-links s cur key value a k b h) [
      | inl new ↦ absurd (leaf-ne-map value b leaf new.1)
      | inr old ↦ wf.upward a k b old
    ];
    in_use = λ a k b h. elim (set_at-links s cur key value a k b h) [
      | inl new ↦ absurd (leaf-ne-map value b leaf new.1)
      | inr old ↦ omega (arith, next-set_at s cur key value, wf.in_use a k b old)
    ];
    fresh = λ a k h.
        ground (arith, get-set_at s cur key value a k, next-set_at s cur key value, wf.fresh a k);
    bounded = λ a h. omega (
      arith,
      next-set_at s cur key value,
      wf.bounded a (omega (arith, next-set_at s cur key value)),
    );
  }

  -- Setting a detached map.
  pub link-IsWellFormed :
      (cur : ℕ) (key : Bytes) (d : ℕ)
      → cur < s.next
      → cur ≢ d
      → IsDetached s rank d
      → IsWellFormed (set_at s cur key (map d)) (rank_at rank d (rank cur + 1))
  link-IsWellFormed cur key d lt ne new = record {
    valid = set_at-IsValid s cur key (map d) wf.valid;
    upward = λ a k b h. elim (set_at-links s cur key (map d) a k b h) [
      | inl now ↦ ground (arith, now.0, now.1)
      | inr old ↦ ground (arith, wf.upward a k b old, new.unlinked a k, new.empty k, old)
    ];
    in_use = λ a k b h. elim (set_at-links s cur key (map d) a k b h) [
      | inl now ↦ ground (arith, next-set_at s cur key (map d), new.allocated, now.1)
      | inr old ↦ omega (arith, next-set_at s cur key (map d), wf.in_use a k b old)
    ];
    fresh = λ a k h.
        ground
          (arith, get-set_at s cur key (map d) a k, next-set_at s cur key (map d), wf.fresh a k);
    bounded = λ a h. ground (arith, next-set_at s cur key (map d), wf.bounded a, new.room cur);
  }
