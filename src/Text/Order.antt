-- ===== src/Text/Order.antt =====
-- The order of Go strings, and a sort by a key as `sort.Slice` and `sort.Strings` give it where
-- the keys differ.
use mathlib.Core.List.{Perm}
use mathlib.Core.List.Perm
use hacker_os_builder.Prelude.{
  inl, inr, Bool-cases, Bool, true, false, not, ◌&&◌, ◌||◌, List, [], ◌∷◌, ◌==◌, ltb, if◌then◌else◌,
  Bytes, ◌≡◌, refl, arith, equal, mem, distinct, equal_iff,
}

-- `a < b`
unfoldable pub less : Bytes → Bytes → Bool
less [] [] = false
less [] (d ∷ t) = true
less (c ∷ s) [] = false
less (c ∷ s) (d ∷ t) = let rest = less s t in if c == d then rest else ltb c d

module _ {ℓ} {V : Type ℓ} (key : V → Bytes) where
  unfoldable pub insert_by : V → List V → List V
  unfolding less
  insert_by v [] = v ∷ []
  insert_by v (w ∷ ws) =
      let rest = insert_by v ws in if less (key w) (key v) then w ∷ rest else v ∷ w ∷ ws

  unfoldable pub sort_by : List V → List V
  unfolding insert_by
  sort_by [] = []
  sort_by (v ∷ vs) = insert_by v (sort_by vs)

  -- No key stands before a smaller one.
  abbrev pub first_not_less : V → List V → Bool
  first_not_less v [] = true
  first_not_less v (w ∷ ws) = not (less (key w) (key v))

  abbrev pub is_sorted : List V → Bool
  is_sorted [] = true
  is_sorted (v ∷ vs) = first_not_less v vs && is_sorted vs

less_asym : (s t : Bytes) → less s t ≡ true → less t s ≡ false
unfolding less
less_asym [] [] h = refl
less_asym [] (d ∷ t) h = refl
less_asym (c ∷ s) [] h = cc
less_asym (c ∷ s) (d ∷ t) h = ground (arith, less_asym s t)

module _ {ℓ} {V : Type ℓ} (key : V → Bytes) where
  insert_by-is_sorted :
      (v : V) (vs : List V) → is_sorted key vs ≡ true → is_sorted key (insert_by key v vs) ≡ true
  unfolding insert_by
  insert_by-is_sorted v [] h = refl
  insert_by-is_sorted v (w ∷ []) h = ground (arith, less_asym (key w) (key v))
  insert_by-is_sorted v (w ∷ x ∷ ws) h =
      ground (arith, less_asym (key w) (key v), insert_by-is_sorted v (x ∷ ws))

  pub sort_by-is_sorted : (vs : List V) → is_sorted key (sort_by key vs) ≡ true
  unfolding sort_by
  sort_by-is_sorted [] = refl
  sort_by-is_sorted (v ∷ vs) = insert_by-is_sorted v (sort_by key vs) (sort_by-is_sorted vs)

  insert_by-Perm : (v : V) (vs : List V) → Perm (insert_by key v vs) (v ∷ vs)
  unfolding insert_by
  insert_by-Perm v [] = Perm.refl _
  insert_by-Perm v (w ∷ ws) = elim (Bool-cases (less (key w) (key v))) [
    | inl before ↦ rw before (Perm.trans (Perm.cons w (insert_by-Perm v ws)) (Perm.swap v w ws))
    | inr behind ↦ rw behind (Perm.refl _)
  ]

  pub sort_by-Perm : (vs : List V) → Perm (sort_by key vs) vs
  unfolding sort_by
  sort_by-Perm [] = Perm.refl _
  sort_by-Perm (v ∷ vs) =
      Perm.trans (insert_by-Perm v (sort_by key vs)) (Perm.cons v (sort_by-Perm vs))

abbrev pub id_key : Bytes → Bytes
id_key s = s

insert_by-mem :
    (k v : Bytes) (vs : List Bytes) → mem k (insert_by id_key v vs) ≡ (equal v k || mem k vs)
unfolding insert_by mem
insert_by-mem k v [] = refl
insert_by-mem k v (w ∷ ws) = ground (arith, insert_by-mem k v ws)

pub sort_by-mem : (k : Bytes) (vs : List Bytes) → mem k (sort_by id_key vs) ≡ mem k vs
unfolding sort_by mem
sort_by-mem k [] = refl
sort_by-mem k (v ∷ vs) = ground (arith, insert_by-mem k v (sort_by id_key vs), sort_by-mem k vs)

insert_by-distinct :
    (v : Bytes) (vs : List Bytes)
    → distinct (insert_by id_key v vs) ≡ (not (mem v vs) && distinct vs)
unfolding insert_by distinct mem
insert_by-distinct v [] = refl
insert_by-distinct v (w ∷ ws) =
    ground (arith, insert_by-distinct v ws, insert_by-mem w v ws, equal_iff v w, equal_iff w v)

pub sort_by-distinct : (vs : List Bytes) → distinct (sort_by id_key vs) ≡ distinct vs
unfolding sort_by distinct
sort_by-distinct [] = refl
sort_by-distinct (v ∷ vs) =
    ground (arith, insert_by-distinct v (sort_by id_key vs), sort_by-distinct vs, sort_by-mem v vs)
