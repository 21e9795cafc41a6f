-- ===== src/Hk/OrderedMap/Laws.antt =====
-- An OrderedMap and its list of entries.
use hacker_os_builder.Prelude.{
  true, false, ◌||◌, List, [], ◌∷◌, ◌++◌, Option, none, some, ◌≡◌, refl, ◌∙◌, arith, if◌then◌else◌,
  Bytes, mem, distinct, distinct-concat, equal, equal_iff, equal_refl, is_some, Bool-cases, inl,
  inr,
}
use hacker_os_builder.Hk.OrderedMap.{OrderedMap, get, set, new_ordered_map}

-- The keys are distinct, and they are the ones that have a value.
pub record IsValid {ℓ} {V : Type ℓ} (m : OrderedMap V) : Type ℓ where
  pub keys_distinct : distinct m.keys ≡ true
  pub keys_exact : (k : Bytes) → mem k m.keys ≡ is_some (m.values k)

-- The abstract view: the entries in order.
abbrev pub Entries {ℓ} : Type ℓ → Type ℓ
Entries V = List (Bytes × V)

mem-concat : (k j : Bytes) (ks : List Bytes) → mem j (ks ++ k ∷ []) ≡ (mem j ks || equal k j)
unfolding mem
mem-concat k j [] = ground arith
mem-concat k j (i ∷ ks) = ground (arith, mem-concat k j ks)

module _ {ℓ} {V : Type ℓ} where
  pub entries_from : (Bytes → Option V) → List Bytes → Entries V
  entries_from f [] = []
  entries_from f (k ∷ ks) =
      let rest = entries_from f ks in elim (f k) [ none ↦ rest | some v ↦ (k, v) ∷ rest ]

  pub entries : OrderedMap V → Entries V
  entries m = entries_from m.values m.keys

  -- What Set promises: an entry is overwritten where it stands, and a new one comes last.
  pub upsert : Bytes → V → Entries V → Entries V
  upsert k v [] = (k, v) ∷ []
  upsert k v ((j, w) ∷ es) = if equal k j then (j, v) ∷ es else (j, w) ∷ upsert k v es

  pub lookup : Bytes → Entries V → Option V
  lookup k [] = none
  lookup k ((j, w) ∷ es) = if equal j k then some w else lookup k es

  pub get-set :
      (m : OrderedMap V) (k j : Bytes) (v : V)
      → get (set m k v) j ≡ (if equal k j then some v else get m j)
  unfolding get set
  get-set m k j v = refl

  pub new_ordered_map-IsValid : IsValid (new_ordered_map {V = V})
  unfolding new_ordered_map distinct mem
  new_ordered_map-IsValid = record { keys_distinct = refl; keys_exact = λ k. refl }

  pub set-IsValid : (m : OrderedMap V) (k : Bytes) (v : V) → IsValid m → IsValid (set m k v)
  unfolding set
  set-IsValid m k v h = elim (Bool-cases (is_some (m.values k))) [
    | inl old ↦ record {
      keys_distinct = rw old h.keys_distinct;
      keys_exact = λ j. rw old (ground (arith, h.keys_exact j, h.keys_exact k, equal_iff k j));
    }
    | inr new ↦ record {
      keys_distinct = rw new (distinct-concat k m.keys h.keys_distinct (h.keys_exact k ∙ new));
      keys_exact = λ j. rw new (rw mem-concat (ground (arith, h.keys_exact j)));
    }
  ]

  abbrev updated : Bytes → V → (Bytes → Option V) → Bytes → Option V
  updated k v f = λ j. if equal k j then some v else f j

  entries_from-append :
      (f : Bytes → Option V) (ks js : List Bytes)
      → entries_from f (ks ++ js) ≡ entries_from f ks ++ entries_from f js
  unfolding entries_from
  entries_from-append f [] js = refl
  entries_from-append f (k ∷ ks) js = ground (arith, entries_from-append f ks js)

  entries_from-single :
      (k : Bytes) (v : V) (f : Bytes → Option V)
      → entries_from (updated k v f) (k ∷ []) ≡ (k, v) ∷ []
  unfolding entries_from
  entries_from-single k v f = ground (arith, equal_refl k)

  entries_from-absent :
      (k : Bytes) (v : V) (f : Bytes → Option V) (ks : List Bytes)
      → mem k ks ≡ false
      → entries_from (updated k v f) ks ≡ entries_from f ks
  unfolding entries_from mem
  entries_from-absent k v f [] h = refl
  entries_from-absent k v f (j ∷ ks) h =
      ground (arith, entries_from-absent k v f ks, equal_iff k j, equal_iff j k)

  upsert-absent :
      (k : Bytes) (v : V) (f : Bytes → Option V) (ks : List Bytes)
      → mem k ks ≡ false
      → upsert k v (entries_from f ks) ≡ entries_from f ks ++ (k, v) ∷ []
  unfolding entries_from upsert mem
  upsert-absent k v f [] h = refl
  upsert-absent k v f (j ∷ ks) h =
      ground (arith, upsert-absent k v f ks, equal_iff k j, equal_iff j k)

  entries_from-present :
      (k : Bytes) (v : V) (f : Bytes → Option V) (ks : List Bytes)
      → mem k ks ≡ true
      → distinct ks ≡ true
      → is_some (f k) ≡ true
      → entries_from (updated k v f) ks ≡ upsert k v (entries_from f ks)
  unfolding entries_from upsert mem distinct
  entries_from-present k v f [] m d s = cc
  entries_from-present k v f (j ∷ ks) m d s = ground (
    arith,
    entries_from-present k v f ks,
    entries_from-absent k v f ks,
    equal_iff k j,
    equal_iff j k,
  )

  -- Set on a well-formed map overwrites the entry of its key in place, or adds one at the end.
  pub entries-set :
      (m : OrderedMap V) (k : Bytes) (v : V)
      → IsValid m
      → entries (set m k v) ≡ upsert k v (entries m)
  unfolding entries set
  entries-set m k v h = elim (Bool-cases (is_some (m.values k))) [
    | inl old ↦
        rw old (entries_from-present k v m.values m.keys (h.keys_exact k ∙ old) h.keys_distinct old)
    | inr new ↦ rw new (
        entries_from-append (updated k v m.values) m.keys (k ∷ [])
        ∙ cc (
          entries_from-absent k v m.values m.keys (h.keys_exact k ∙ new),
          entries_from-single k v m.values,
          upsert-absent k v m.values m.keys (h.keys_exact k ∙ new),
        ))
  ]

  lookup-entries_from :
      (k : Bytes) (f : Bytes → Option V) (ks : List Bytes)
      → lookup k (entries_from f ks) ≡ (if mem k ks then f k else none)
  unfolding lookup entries_from mem
  lookup-entries_from k f [] = refl
  lookup-entries_from k f (j ∷ ks) = ground (arith, lookup-entries_from k f ks, equal_iff j k)

  -- Get reads the entry of its key.
  pub lookup-entries : (m : OrderedMap V) (k : Bytes) → IsValid m → lookup k (entries m) ≡ get m k
  unfolding entries get
  lookup-entries m k h = ground (arith, lookup-entries_from k m.values m.keys, h.keys_exact k)
