-- ===== src/Hk/Interpolate/Settled.antt =====
-- The outcomes of ResolveInterpolations on a well-formed configuration.
use hacker_os_builder.Prelude.{
  ℕ, zero, suc, ◌+◌, ◌≤◌, ◌<◌, Option, none, some, List, [], ◌∷◌, Bytes, ◌≡◌, refl, arith,
}
use hacker_os_builder.Hk.Errors.{Result}
use hacker_os_builder.Hk.OrderedMap.{get}
use hacker_os_builder.Hk.Value.{HkValue, string, number, bool, array, map, Items, nil, cons}
use hacker_os_builder.Hk.Store.{Store, HkConfig}
use hacker_os_builder.Hk.Store.WellFormed.{IsWellFormed, set_at-IsWellFormed, next-set_at}
use hacker_os_builder.Hk.Serialize.{or_zero}
use hacker_os_builder.Hk.Interpolate.{
  Surroundings, resolve_items, resolve_entry, full_path, resolve_keys, resolve_map, resolve_text,
  reachable, resolve_interpolations,
}
use hacker_os_builder.Hk.Interpolate.Terminates.{
  Outcome, bind-Outcome, Settled, bind-Settled, resolve_string_total,
}
use hacker_os_builder.Hk.Interpolate.Answers.{get_path-IsAnswer, refs_of-reachable}

resolve_text_total :
    (env : Surroundings) (s : Store) (root : ℕ) (rank : ℕ → ℕ) (path text : Bytes)
    → IsWellFormed s rank
    → Settled (resolve_text env (record { store = s; sections = root }) path text)
unfolding resolve_text
resolve_text_total env s root rank path text wf =
    resolve_string_total env (record { store = s; sections = root }) (reachable s text)
      (get_path-IsAnswer s rank wf root text) path text (refs_of-reachable s text)

-- A well-formed store with the maps of the old one.
abbrev KeepsMaps : (ℕ → ℕ) → ℕ → Store → Type 0
KeepsMaps rank n s = IsWellFormed s rank × (s.next ≡ n)

resolve_items-Settled :
    (resolve : Bytes → Bytes → Result Bytes) (path : Bytes) (i : ℕ) (xs : Items)
    → ((p t : Bytes) → Settled (resolve p t))
    → Settled (resolve_items resolve path i xs)
unfolding resolve_items
resolve_items-Settled resolve path i nil h = tt
resolve_items-Settled resolve path i (cons (string s) xs) h =
    bind-Settled (λ v. Unit) (resolve _ s) _ (h _ s)
      λ resolved.
        bind-Settled (λ v. Unit) (resolve_items resolve path (i + 1) xs) _
          (resolve_items-Settled resolve path (i + 1) xs h) λ ys. tt
resolve_items-Settled resolve path i (cons _ xs) h =
    bind-Settled (λ v. Unit) (resolve_items resolve path (i + 1) xs) _
      (resolve_items-Settled resolve path (i + 1) xs h) λ ys. tt

module _ (env : Surroundings) (root : ℕ) (rank : ℕ → ℕ) (n : ℕ) where
  abbrev text : Store → Bytes → Bytes → Result Bytes
  text s = resolve_text env (record { store = s; sections = root })

  resolve_entry-KeepsMaps :
      (below : Store → ℕ → Bytes → Result Store) (s : Store) (m : ℕ) (key path : Bytes)
      (v : HkValue)
      → IsWellFormed s rank
      → s.next ≡ n
      → m < n
      → ((a : ℕ) → v ≡ map a → Outcome (KeepsMaps rank n) (below s a path))
      → Outcome (KeepsMaps rank n) (resolve_entry (text s) below s m key path v)
  unfolding resolve_entry
  resolve_entry-KeepsMaps below s m key path (string t) wf same lt h =
      bind-Settled (KeepsMaps rank n) (text s path t) _
        (resolve_text_total env s root rank path t wf)
        λ resolved. (
          set_at-IsWellFormed s rank wf m key (string resolved) (omega arith) refl,
          omega (arith, next-set_at s m key (string resolved)),
        )
  resolve_entry-KeepsMaps below s m key path (array xs) wf same lt h =
      bind-Settled (KeepsMaps rank n) (resolve_items (text s) path 0 xs) _
        (resolve_items-Settled (text s) path 0 xs λ p t. resolve_text_total env s root rank p t wf)
        λ ys. (
          set_at-IsWellFormed s rank wf m key (array ys) (omega arith) refl,
          omega (arith, next-set_at s m key (array ys)),
        )
  resolve_entry-KeepsMaps below s m key path (map a) wf same lt h = h a refl
  resolve_entry-KeepsMaps below s m key path (number x) wf same lt h = (wf, same)
  resolve_entry-KeepsMaps below s m key path (bool b) wf same lt h = (wf, same)

  or_zero-map : (o : Option HkValue) (a : ℕ) → or_zero o ≡ map a → o ≡ some (map a)
  or_zero-map none a h = cc
  or_zero-map (some v) a h = cc

  -- `below` may be used for the maps of higher rank.
  resolve_keys-KeepsMaps :
      (below : Store → ℕ → Bytes → Result Store) (s : Store) (m : ℕ) (prefix : Bytes)
      (keys : List Bytes)
      → ((t : Store) (a : ℕ) (path : Bytes)
          → IsWellFormed t rank
          → t.next ≡ n
          → a < n
          → rank m < rank a
          → Outcome (KeepsMaps rank n) (below t a path))
      → IsWellFormed s rank
      → s.next ≡ n
      → m < n
      → Outcome (KeepsMaps rank n) (resolve_keys text below s m prefix keys)
  unfolding resolve_keys
  resolve_keys-KeepsMaps below s m prefix [] h wf same lt = (wf, same)
  resolve_keys-KeepsMaps below s m prefix (key ∷ keys) h wf same lt =
      let path = full_path prefix key in
      let v = get (s.cell m) key in
      bind-Outcome (KeepsMaps rank n) (KeepsMaps rank n)
        (resolve_entry (text s) below s m key path (or_zero v)) _
        (resolve_entry-KeepsMaps below s m key path (or_zero v) wf same lt λ a e.
          let link = or_zero-map v a e in
          let used = wf.in_use m key a link in
          h s a path wf same (omega arith) (wf.upward m key a link))
        λ t kept. resolve_keys-KeepsMaps below t m prefix keys h kept.0 kept.1 lt

  resolve_map-KeepsMaps :
      (fuel : ℕ) (s : Store) (m : ℕ) (prefix : Bytes)
      → IsWellFormed s rank
      → s.next ≡ n
      → m < n
      → n ≤ fuel + rank m
      → Outcome (KeepsMaps rank n) (resolve_map text fuel s m prefix)
  unfolding resolve_map
  resolve_map-KeepsMaps zero s m prefix wf same lt enough =
      absurd (omega (arith, wf.bounded m (omega arith)))
  resolve_map-KeepsMaps (suc fuel) s m prefix wf same lt enough =
      resolve_keys-KeepsMaps (resolve_map text fuel) s m prefix (s.cell m).keys
        (λ t a path wf' same' lt' up.
          resolve_map-KeepsMaps fuel t a path wf' same' lt' (omega arith))
        wf same lt

-- A well-formed configuration with the same maps.
abbrev pub IsResolved : (ℕ → ℕ) → HkConfig → HkConfig → Type 0
IsResolved rank c d =
    IsWellFormed d.store rank × (d.store.next ≡ c.store.next) × (d.sections ≡ c.sections)

-- For a configuration whose maps are well-formed, the resolver ends: it reports a ParseError, a
-- TypeMismatchError, an InvalidReferenceError or a CyclicReferenceError, or it returns a
-- configuration whose maps are well-formed, of the same number, with the same root.
pub resolve_interpolations_total :
    (env : Surroundings) (c : HkConfig) (rank : ℕ → ℕ)
    → IsWellFormed c.store rank
    → c.sections < c.store.next
    → Outcome (IsResolved rank c) (resolve_interpolations env c)
unfolding resolve_interpolations
resolve_interpolations_total env c rank wf root =
    bind-Outcome (KeepsMaps rank c.store.next) (IsResolved rank c) _ _
      (resolve_map-KeepsMaps env c.sections rank c.store.next c.store.next c.store c.sections [] wf
        refl root (omega arith))
      λ s h. (h.0, h.1, refl)
