-- ===== src/Hk/Insert/Laws.antt =====
-- The store behind insertWithDotExpansion, and the walk along the segments of a key in it.
use hacker_os_builder.Prelude.{
  ℕ, ◌+◌, ◌≤◌, ◌<◌, some, List, [], ◌∷◌, ◌++◌, Bytes, ◌≡◌, ◌≢◌, refl, ◌∙◌, ap, sym, arith, inl, inr,
}
use mathlib.Core.Path.{subst}
use hacker_os_builder.Hk.Errors.{ok}
use hacker_os_builder.Hk.OrderedMap.{get}
use hacker_os_builder.Hk.Path.{split_path}
use hacker_os_builder.Hk.Value.{HkValue, string, map}
use hacker_os_builder.Hk.Store.{Store, alloc, set_at}
use hacker_os_builder.Hk.Store.WellFormed.{
  IsWellFormed, rank_at, get-set_at, set_at-cell_ne, get-alloc, get-set_at_self, alloc-cell_ne,
  set_at-links, alloc-links, next-set_at, next-alloc, alloc-IsWellFormed, alloc-IsDetached,
  link-IsWellFormed,
}
use hacker_os_builder.Hk.Config.{get_loop}
use hacker_os_builder.Hk.Insert.{put_leaf, insert_segments, insert_at, insert_with_dot_expansion}
use hacker_os_builder.Hk.Insert.Steps.{
  slot-cases, insert_segments-absent, insert_segments-map, insert_segments-other,
}
use hacker_os_builder.Hk.Insert.Leaf.{IsNew, get_step-plain, Inserted, rank_ne, set_at-Inserted}

-- A walk that first goes down the link from `cur` to `m`.
descend-Inserted :
    (s : Store) (rank : ℕ → ℕ) (cur : ℕ) (s₁ : Store) (rank₁ : ℕ → ℕ) (m : ℕ) (s' : Store)
    (value : HkValue) (seg next : Bytes) (rest : List Bytes)
    → get (s₁.cell cur) seg ≡ some (map m)
    → cur < s₁.next
    → cur ≢ m
    → rank₁ cur ≤ rank₁ m
    → s.next ≤ s₁.next
    → ((a : ℕ)
        → a < s.next
        → a ≢ cur
        → rank a ≤ rank cur
        → (a ≢ m) × (rank₁ a ≤ rank₁ m) × (s₁.cell a ≡ s.cell a))
    → Inserted s₁ rank₁ m s' value (next ∷ rest)
    → Inserted s rank cur s' value (seg ∷ next ∷ rest)
unfolding get_loop
descend-Inserted s rank cur s₁ rank₁ m s' value seg next rest link lt ne up more keep ih = record {
  rank' = ih.rank';
  well_formed = ih.well_formed;
  grows = omega (arith, ih.grows);
  frame = λ a h other le.
      let (am, up', same) = keep a h other le in ih.frame a (omega arith) am up' ∙ same;
  found = λ path plain.
      rw
        (get_step-plain s' path cur seg (map m) plain.0
          (ap (λ c. get c seg) (ih.frame cur lt ne up) ∙ link))
        (ih.found path plain.1);
}

pub put_leaf-ok :
    (s : Store) (target : ℕ) (name key : Bytes) (value : HkValue) (s' : Store)
    → put_leaf s target name key value ≡ ok s'
    → set_at s target name value ≡ s'
unfolding put_leaf
put_leaf-ok s target name key value s' h = ground arith

-- The store in which a missing segment has been opened.
abbrev pub opened : Store → ℕ → Bytes → Store
opened s cur seg = set_at (alloc s) cur seg (map s.next)

abbrev pub rank_opened : Store → (ℕ → ℕ) → ℕ → ℕ → ℕ
rank_opened s rank cur = let rank₀ = rank_at rank s.next 0 in rank_at rank₀ s.next (rank₀ cur + 1)

module _ (s : Store) (rank : ℕ → ℕ) (cur : ℕ) (seg : Bytes) (wf : IsWellFormed s rank)
    (lt : cur < s.next) where
  pub opened-IsWellFormed : IsWellFormed (opened s cur seg) (rank_opened s rank cur)
  opened-IsWellFormed =
      link-IsWellFormed (alloc s) (rank_at rank s.next 0) (alloc-IsWellFormed s rank wf) cur seg
        s.next (omega (arith, next-alloc s)) (omega arith) (alloc-IsDetached s rank wf)

  opened-IsNew :
      (value : HkValue)
      → IsNew s rank value cur
      → IsNew (opened s cur seg) (rank_opened s rank cur) value s.next
  opened-IsNew (map d) new = (
    record {
      allocated =
          omega (arith, next-alloc s, next-set_at (alloc s) cur seg (map s.next), new.0.allocated);
      unlinked = λ a k h. elim (set_at-links (alloc s) cur seg (map s.next) a k d h) [
        | inl now ↦ ground (arith, now.1, new.0.allocated)
        | inr old ↦ new.0.unlinked a k (alloc-links s a k d old).1
      ];
      empty = λ k. ground (
        arith,
        get-set_at (alloc s) cur seg (map s.next) d k,
        get-alloc s d k,
        new.1,
        new.0.empty k,
      );
      room = λ a h ne. ground (
        arith,
        next-alloc s,
        next-set_at (alloc s) cur seg (map s.next),
        wf.bounded a,
        new.0.room cur,
        new.1,
      );
    },
    λ e. ground (arith, e, new.0.allocated),
  )
  opened-IsNew (string x) new = tt
  opened-IsNew _ new = tt

  opened-Inserted :
      (s' : Store) (value : HkValue) (next : Bytes) (rest : List Bytes)
      → Inserted (opened s cur seg) (rank_opened s rank cur) s.next s' value (next ∷ rest)
      → Inserted s rank cur s' value (seg ∷ next ∷ rest)
  opened-Inserted s' value next rest =
      descend-Inserted s rank cur (opened s cur seg) (rank_opened s rank cur) s.next s' value seg
        next rest (get-set_at_self (alloc s) cur seg (map s.next))
        (omega (arith, next-alloc s, next-set_at (alloc s) cur seg (map s.next))) (omega arith)
        (ground arith) (omega (arith, next-alloc s, next-set_at (alloc s) cur seg (map s.next)))
        λ a h ne le. (
          omega arith,
          ground arith,
          set_at-cell_ne (alloc s) cur seg (map s.next) a ne ∙ alloc-cell_ne s a (omega arith),
        )

  entered-Inserted :
      (s' : Store) (value : HkValue) (next : Bytes) (rest : List Bytes) (m : ℕ)
      → get (s.cell cur) seg ≡ some (map m)
      → Inserted s rank m s' value (next ∷ rest)
      → Inserted s rank cur s' value (seg ∷ next ∷ rest)
  entered-Inserted s' value next rest m down =
      let up = wf.upward cur seg m down in
      descend-Inserted s rank cur s rank m s' value seg next rest down lt (rank_ne rank cur m up)
        (omega arith) (omega arith) λ a h ne le. (rank_ne rank a m (omega arith), omega arith, refl)

IsNew-link :
    (s : Store) (rank : ℕ → ℕ) (cur : ℕ) (seg : Bytes) (m : ℕ) (value : HkValue)
    → get (s.cell cur) seg ≡ some (map m)
    → IsNew s rank value cur
    → IsNew s rank value m
IsNew-link s rank cur seg m (map d) down new =
    (new.0, λ e. new.0.unlinked cur seg (down ∙ ap (λ t. some (map t)) e))
IsNew-link s rank cur seg m (string x) down new = tt
IsNew-link s rank cur seg m _ down new = tt

pub insert_segments-Inserted :
    (rest : List Bytes) (s : Store) (rank : ℕ → ℕ) (cur : ℕ) (seen : List Bytes) (key : Bytes)
    (value : HkValue) (seg : Bytes)
    → IsWellFormed s rank
    → cur < s.next
    → IsNew s rank value cur
    → (s' : Store) → insert_segments s cur seen key value seg rest ≡ ok s'
    → Inserted s rank cur s' value (seg ∷ rest)
unfolding insert_segments
insert_segments-Inserted [] s rank cur seen key value seg wf lt new s' h =
    subst (λ t. Inserted s rank cur t value (seg ∷ [])) (put_leaf-ok s cur seg key value s' h)
      (set_at-Inserted s rank cur seg value wf lt new)
insert_segments-Inserted (next ∷ rest) s rank cur seen key value seg wf lt new s' h =
    elim (slot-cases (get (s.cell cur) seg)) [
      | inl absent ↦ opened-Inserted s rank cur seg wf lt s' value next rest (
          insert_segments-Inserted rest (opened s cur seg) (rank_opened s rank cur) s.next
            (seen ++ seg ∷ []) key value next (opened-IsWellFormed s rank cur seg wf lt)
            (omega (arith, next-alloc s, next-set_at (alloc s) cur seg (map s.next)))
            (opened-IsNew s rank cur seg wf lt value new) s'
            (sym (insert_segments-absent s cur seen key value seg next rest absent) ∙ h))
      | inr (inl (m, down)) ↦ entered-Inserted s rank cur seg wf lt s' value next rest m down (
          insert_segments-Inserted rest s rank m (seen ++ seg ∷ []) key value next wf
            (wf.in_use cur seg m down) (IsNew-link s rank cur seg m value down new) s'
            (sym (insert_segments-map s cur m seen key value seg next rest down) ∙ h))
      | inr (inr (v, leaf, other)) ↦
          absurd (cc (h, insert_segments-other s cur seen key value seg next rest v leaf other))
    ]

-- The same for the whole operation, whose last frame clause is all that a caller needs.
pub record Placed (s : Store) (rank : ℕ → ℕ) (target : ℕ) (s' : Store) : Type 0 where
  pub rank' : ℕ → ℕ
  pub well_formed : IsWellFormed s' rank'
  pub grows : s.next ≤ s'.next

Inserted-Placed :
    {s : Store} {rank : ℕ → ℕ} {cur : ℕ} {s' : Store} {value : HkValue} {segs : List Bytes}
    → Inserted s rank cur s' value segs
    → Placed s rank cur s'
Inserted-Placed i = record { rank' = i.rank'; well_formed = i.well_formed; grows = i.grows }

module _ (s : Store) (rank : ℕ → ℕ) (target : ℕ) (key : Bytes) (value : HkValue)
    (wf : IsWellFormed s rank) (lt : target < s.next) (new : IsNew s rank value target)
    (s' : Store) where
  put_leaf-Placed : put_leaf s target key key value ≡ ok s' → Placed s rank target s'
  put_leaf-Placed h =
      subst (λ t. Placed s rank target t) (put_leaf-ok s target key key value s' h)
        (Inserted-Placed (set_at-Inserted s rank target key value wf lt new))

  insert_at-Placed :
      (segs : List Bytes) → insert_at s target key value segs ≡ ok s' → Placed s rank target s'
  unfolding insert_at
  insert_at-Placed [] h = put_leaf-Placed h
  insert_at-Placed (seg ∷ []) h = put_leaf-Placed h
  insert_at-Placed (seg ∷ next ∷ rest) h =
      Inserted-Placed
        (insert_segments-Inserted (next ∷ rest) s rank target [] key value seg wf lt new s' h)

  -- A key that is inserted, dotted or not, leaves a well-formed store.
  pub insert-Placed : insert_with_dot_expansion s target key value ≡ ok s' → Placed s rank target s'
  unfolding insert_with_dot_expansion
  insert-Placed h = insert_at-Placed (split_path key) h
