-- ===== src/Hk/Interpolate/Answers.antt =====
-- The values that Get finds in a configuration, and the references in them.
use hacker_os_builder.Prelude.{
  ℕ, zero, suc, ◌<◌, true, some, List, [], ◌∷◌, ◌++◌, Bytes, equal, equal_iff, equal_refl, mem,
  mem-append, leb, All-map, ◌≡◌, arith, Bool-cases, Option-cases, inl, inr, ◌∙◌, ap, is_some,
}
use mathlib.Core.Path.{subst}
use hacker_os_builder.Hk.Errors.{Result, ok, err, panic, ◌>>=◌}
use hacker_os_builder.Hk.OrderedMap.{OrderedMap, get}
use hacker_os_builder.Text.Decimal.{ℤ, pos, negsuc}
use hacker_os_builder.Hk.Path.{parse_array_index, ArrayIndex, split_path}
use hacker_os_builder.Hk.Value.{HkValue, string, array, map, Items, nil, cons, as_map, as_array}
use hacker_os_builder.Hk.Store.{Store}
use hacker_os_builder.Hk.Store.WellFormed.{IsWellFormed}
use hacker_os_builder.Hk.Config.{
  item, index_array, select, get_step, get_loop, get_segments, get_path,
}
use hacker_os_builder.Hk.Serialize.{or_zero}
use hacker_os_builder.Hk.Interpolate.{
  refs_of, refs_of_all, texts_of, texts_of_items, texts_of_keys, texts_below, reachable,
}
use hacker_os_builder.Hk.Interpolate.Terminates.{AllIn, IsAnswer}

AllIn-left : (us vs ts : List Bytes) → AllIn us ts → AllIn (us ++ vs) ts
AllIn-left us vs =
    All-map (λ t. mem t us ≡ true) (λ t. mem t (us ++ vs) ≡ true)
      λ t h. ground (arith, mem-append t us vs)

AllIn-right : (us vs ts : List Bytes) → AllIn vs ts → AllIn (us ++ vs) ts
AllIn-right us vs =
    All-map (λ t. mem t vs ≡ true) (λ t. mem t (us ++ vs) ≡ true)
      λ t h. ground (arith, mem-append t us vs)

AllIn-self : (us : List Bytes) → AllIn us us
unfolding mem
AllIn-self [] = tt
AllIn-self (u ∷ us) = (ground (arith, equal_refl u), AllIn-right (u ∷ []) us us (AllIn-self us))

AllIn-parts : (us xs ys : List Bytes) → AllIn us (xs ++ ys) → AllIn us xs × AllIn us ys
AllIn-parts us [] ys h = (tt, h)
AllIn-parts us (x ∷ xs) ys h =
    let (first, later) = AllIn-parts us xs ys h.1 in ((h.0, first), later)

AllIn-mem : (us vs : List Bytes) (t : Bytes) → AllIn vs us → mem t us ≡ true → mem t vs ≡ true
unfolding mem
AllIn-mem [] vs t h k = cc
AllIn-mem (u ∷ us) vs t h k = elim (Bool-cases (equal u t)) [
  | inl same ↦ subst (λ x. mem x vs ≡ true) ((equal_iff u t).0 same) h.0
  | inr other ↦ AllIn-mem us vs t h.1 (ground (arith, other))
]

AllIn-trans : (ts us vs : List Bytes) → AllIn us ts → AllIn vs us → AllIn vs ts
AllIn-trans ts us vs h k =
    All-map (λ t. mem t us ≡ true) (λ t. mem t vs ≡ true) (λ t. AllIn-mem us vs t k) ts h

-- The references of one of the texts are among those of all.
refs_of-all : (t : Bytes) (ts : List Bytes) → mem t ts ≡ true → AllIn (refs_of_all ts) (refs_of t)
unfolding mem refs_of_all
refs_of-all t [] h = cc
refs_of-all t (u ∷ ts) h = elim (Bool-cases (equal u t)) [
  | inl same ↦
      subst (λ x. AllIn (refs_of u ++ refs_of_all ts) (refs_of x)) ((equal_iff u t).0 same)
        (AllIn-left (refs_of u) (refs_of_all ts) (refs_of u) (AllIn-self (refs_of u)))
  | inr other ↦
      AllIn-right (refs_of u) (refs_of_all ts) (refs_of t)
        (refs_of-all t ts (ground (arith, other)))
]

texts_of_keys-value :
    (m : OrderedMap HkValue) (key : Bytes) (keys : List Bytes)
    → mem key keys ≡ true
    → AllIn (texts_of_keys m keys) (texts_of (or_zero (get m key)))
unfolding mem texts_of_keys
texts_of_keys-value m key [] h = cc
texts_of_keys-value m key (k ∷ keys) h = elim (Bool-cases (equal k key)) [
  | inl same ↦
      let here = texts_of (or_zero (get m k)) in
      subst (λ x. AllIn (here ++ texts_of_keys m keys) (texts_of (or_zero (get m x))))
        ((equal_iff k key).0 same) (AllIn-left here (texts_of_keys m keys) here (AllIn-self here))
  | inr other ↦
      AllIn-right (texts_of (or_zero (get m k))) (texts_of_keys m keys)
        (texts_of (or_zero (get m key))) (texts_of_keys-value m key keys (ground (arith, other)))
]

texts_below-cell :
    (s : Store) (n a : ℕ)
    → a < n
    → AllIn (texts_below s n) (texts_of_keys (s.cell a) (s.cell a).keys)
unfolding texts_below
texts_below-cell s zero a lt = absurd (omega arith)
texts_below-cell s (suc n) a lt =
    let here = texts_of_keys (s.cell n) (s.cell n).keys in
    elim (Bool-cases (leb n a)) [
      | inl last ↦
          let same : n ≡ a = ground arith in
          subst (λ x. AllIn (here ++ texts_below s n) (texts_of_keys (s.cell x) (s.cell x).keys))
            same (AllIn-left here (texts_below s n) here (AllIn-self here))
      | inr before ↦
          AllIn-right here (texts_below s n) (texts_of_keys (s.cell a) (s.cell a).keys)
            (texts_below-cell s n a (ground arith))
    ]

-- A value whose texts are known, or an error.
abbrev IsKnown : List Bytes → Result HkValue → Type 0
IsKnown ts (ok v) = AllIn ts (texts_of v)
IsKnown ts (err e) = Unit
IsKnown ts panic = ⊥

bind-IsKnown :
    (ts : List Bytes) (r : Result HkValue) (f : HkValue → Result HkValue)
    → IsKnown ts r
    → ((v : HkValue) → AllIn ts (texts_of v) → IsKnown ts (f v))
    → IsKnown ts (r >>= f)
bind-IsKnown ts (ok v) f h k = k v h
bind-IsKnown ts (err e) f h k = tt
bind-IsKnown ts panic f h k = absurd h

texts_of-item :
    (ts : List Bytes) (xs : Items) (n : ℕ) (v : HkValue)
    → item xs n ≡ some v
    → AllIn ts (texts_of_items xs)
    → AllIn ts (texts_of v)
unfolding texts_of texts_of_items
texts_of-item ts nil n v h k = cc
texts_of-item ts (cons x xs) zero v h k =
    let same : x ≡ v = cc in
    subst (λ y. AllIn ts (texts_of y)) same (AllIn-parts ts (texts_of x) (texts_of_items xs) k).0
texts_of-item ts (cons x xs) (suc n) v h k =
    texts_of-item ts xs n v h (AllIn-parts ts (texts_of x) (texts_of_items xs) k).1

index_array-IsKnown :
    (ts : List Bytes) (path : Bytes) (xs : Items) (idx : ℤ)
    → AllIn ts (texts_of_items xs)
    → IsKnown ts (index_array path (ok xs) idx)
unfolding index_array
index_array-IsKnown ts path xs (negsuc n) h = tt
index_array-IsKnown ts path xs (pos n) h = elim (Option-cases (item xs n)) [
  | inl out ↦ rw (out, index_array) tt
  | inr (v, there) ↦ rw (there, index_array) (texts_of-item ts xs n v there h)
]

array-IsKnown :
    (ts : List Bytes) (path : Bytes) (v : HkValue) (idx : ℤ)
    → AllIn ts (texts_of v)
    → IsKnown ts (index_array path (as_array v) idx)
unfolding as_array texts_of index_array
array-IsKnown ts path (array xs) n h = index_array-IsKnown ts path xs n h
array-IsKnown ts path (string x) n h = tt
array-IsKnown ts path _ n h = tt

select-IsKnown :
    (ts : List Bytes) (path : Bytes) (ai : ArrayIndex) (v : HkValue)
    → AllIn ts (texts_of v)
    → IsKnown ts (select path ai v)
unfolding select
select-IsKnown ts path ai v h = elim (Bool-cases ai.has_index) [
  | inl indexed ↦ rw indexed (array-IsKnown ts path v ai.index h)
  | inr whole ↦ rw whole h
]

known-IsAnswer :
    (rs ts : List Bytes) (r : Result HkValue) → IsKnown ts r → IsAnswer (rs ++ refs_of_all ts) r
unfolding texts_of
known-IsAnswer rs ts (ok (string t)) h =
    AllIn-right rs (refs_of_all ts) (refs_of t) (refs_of-all t ts h.0)
known-IsAnswer rs ts (ok (array xs)) h = tt
known-IsAnswer rs ts (ok _) h = tt
known-IsAnswer rs ts (err e) h = tt
known-IsAnswer rs ts panic h = absurd h

-- The references of the text itself are reachable from it.
pub refs_of-reachable : (s : Store) (text : Bytes) → AllIn (reachable s text) (refs_of text)
unfolding reachable
refs_of-reachable s text =
    AllIn-left (refs_of text) (refs_of_all (texts_below s s.next)) (refs_of text)
      (AllIn-self (refs_of text))

module _ (s : Store) (rank : ℕ → ℕ) (wf : IsWellFormed s rank) where
  get-texts :
      (a : ℕ) (k : Bytes) (v : HkValue)
      → get (s.cell a) k ≡ some v
      → AllIn (texts_below s s.next) (texts_of v)
  unfolding get
  get-texts a k v h =
      let here = (s.cell a).keys in
      let listed : mem k here ≡ true = (wf.valid a).keys_exact k ∙ ap is_some h in
      let used : a < s.next = ground (arith, wf.fresh a k) in
      let known = texts_of_keys-value (s.cell a) k here listed in
      AllIn-trans (texts_of v) (texts_of_keys (s.cell a) here) (texts_below s s.next)
        (subst (λ o. AllIn (texts_of_keys (s.cell a) here) (texts_of (or_zero o))) h known)
        (texts_below-cell s s.next a used)

  get_step-IsKnown :
      (path : Bytes) (v : HkValue) (seg : Bytes)
      → IsKnown (texts_below s s.next) (get_step s path v seg)
  unfolding get_step as_map
  get_step-IsKnown path (map a) seg =
      let ai = parse_array_index seg in
      elim (Option-cases (get (s.cell a) ai.base)) [
        | inl absent ↦ rw (absent, get_step) tt
        | inr (v, there) ↦
            rw (there, get_step)
              (select-IsKnown (texts_below s s.next) path ai v (get-texts a ai.base v there))
      ]
  get_step-IsKnown path (string x) seg = tt
  get_step-IsKnown path _ seg = tt

  get_loop-IsKnown :
      (path : Bytes) (v : HkValue) (segs : List Bytes)
      → AllIn (texts_below s s.next) (texts_of v)
      → IsKnown (texts_below s s.next) (get_loop s path v segs)
  unfolding get_loop
  get_loop-IsKnown path v [] h = h
  get_loop-IsKnown path v (seg ∷ segs) h =
      bind-IsKnown (texts_below s s.next) (get_step s path v seg) _ (get_step-IsKnown path v seg)
        λ w k. get_loop-IsKnown path w segs k

  get_segments-IsKnown :
      (root : ℕ) (path : Bytes) (segs : List Bytes)
      → IsKnown
          (texts_below s s.next)
          (get_segments (record { store = s; sections = root }) path segs)
  unfolding get_segments
  get_segments-IsKnown root path [] = tt
  get_segments-IsKnown root path (name ∷ segs) = elim (Option-cases (get (s.cell root) name)) [
    | inl absent ↦ rw (absent, get_segments) tt
    | inr (v, there) ↦
        rw (there, get_segments) (get_loop-IsKnown path v segs (get-texts root name v there))
  ]

  get_path-IsKnown :
      (root : ℕ) (path : Bytes)
      → IsKnown (texts_below s s.next) (get_path (record { store = s; sections = root }) path)
  unfolding get_path
  get_path-IsKnown root path = get_segments-IsKnown root path (split_path path)

  -- The references in a text that Get finds are among those of the store.
  pub get_path-IsAnswer :
      (root : ℕ) (text path : Bytes)
      → IsAnswer (reachable s text) (get_path (record { store = s; sections = root }) path)
  unfolding reachable
  get_path-IsAnswer root text path =
      known-IsAnswer (refs_of text) (texts_below s s.next)
        (get_path (record { store = s; sections = root }) path) (get_path-IsKnown root path)
