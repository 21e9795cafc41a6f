-- ===== src/Hk/Insert/Steps.antt =====
-- The cases of one step of insertWithDotExpansion, as equations.
use hacker_os_builder.Prelude.{
  ℕ, false, Option, none, some, List, [], ◌∷◌, ◌++◌, Bytes, ◌≡◌, refl, ◌⊎◌, inl, inr,
}
use hacker_os_builder.Text.Pieces.{join}
use hacker_os_builder.Hk.Errors.{err, key_conflict}
use hacker_os_builder.Hk.OrderedMap.{get}
use hacker_os_builder.Hk.Value.{HkValue, string, number, bool, array, map, is_map, as_map}
use hacker_os_builder.Hk.Store.{Store, alloc, set_at}
use hacker_os_builder.Hk.Insert.{insert_segments}

pub slot-cases :
    (o : Option HkValue)
    → (o ≡ none)
      ⊎ ((m : ℕ) × (o ≡ some (map m)))
      ⊎ ((v : HkValue) × (o ≡ some v) × (is_map v ≡ false))
slot-cases none = inl refl
slot-cases (some (map m)) = inr (inl (m, refl))
slot-cases (some (string s)) = inr (inr (string s, refl, refl))
slot-cases (some (number n)) = inr (inr (number n, refl, refl))
slot-cases (some (bool b)) = inr (inr (bool b, refl, refl))
slot-cases (some (array xs)) = inr (inr (array xs, refl, refl))

module _ (s : Store) (cur : ℕ) where
  pub insert_segments-absent :
      (seen : List Bytes) (key : Bytes) (value : HkValue) (seg next : Bytes) (rest : List Bytes)
      → get (s.cell cur) seg ≡ none
      → insert_segments s cur seen key value seg (next ∷ rest)
        ≡ insert_segments
            (set_at (alloc s) cur seg (map s.next))
            s.next
            (seen ++ seg ∷ [])
            key
            value
            next
            rest
  unfolding insert_segments
  insert_segments-absent seen key value seg next rest h = rw (h, insert_segments)

  pub insert_segments-map :
      (m : ℕ) (seen : List Bytes) (key : Bytes) (value : HkValue) (seg next : Bytes)
      (rest : List Bytes)
      → get (s.cell cur) seg ≡ some (map m)
      → insert_segments s cur seen key value seg (next ∷ rest)
        ≡ insert_segments s m (seen ++ seg ∷ []) key value next rest
  unfolding insert_segments as_map
  insert_segments-map m seen key value seg next rest h = rw (h, insert_segments)

  pub insert_segments-other :
      (seen : List Bytes) (key : Bytes) (value : HkValue) (seg next : Bytes) (rest : List Bytes)
      (v : HkValue)
      → get (s.cell cur) seg ≡ some v
      → is_map v ≡ false
      → insert_segments s cur seen key value seg (next ∷ rest)
        ≡ err (key_conflict (join (b'.' ∷ []) (seen ++ seg ∷ [])))
  unfolding insert_segments as_map
  insert_segments-other seen key value seg next rest (map m) h k = cc
  insert_segments-other seen key value seg next rest (string x) h k = rw (h, insert_segments)
  insert_segments-other seen key value seg next rest _ h k = rw (h, insert_segments)
