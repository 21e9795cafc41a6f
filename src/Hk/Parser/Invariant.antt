-- ===== src/Hk/Parser/Invariant.antt =====
-- The state of the parser from line to line.
use hacker_os_builder.Prelude.{
  true, some, is_empty, ℕ, ◌+◌, ◌-◌, ◌≤◌, ◌<◌, List, [], ◌∷◌, ltb, Bytes, length, take, drop,
  get_elem?, All, All-append, All-map, All-take, All-get_elem?, ◌≡◌, refl, arith, Bool-cases, inl,
  inr, Option-cases, ◌∙◌,
}
use mathlib.Core.Path.{subst}
use hacker_os_builder.Text.Search.{has_prefix, has_suffix, index}
use hacker_os_builder.Text.Space.{trim_space}
use hacker_os_builder.Hk.Errors.{Result, ok, err, panic, ◌>>=◌, >>=-succeeds, ok-injective}
use hacker_os_builder.Hk.OrderedMap.{get, new_ordered_map}
use hacker_os_builder.Hk.OrderedMap.Laws.{new_ordered_map-IsValid}
use hacker_os_builder.Hk.Value.{Floats, map}
use hacker_os_builder.Hk.LexValue.{cut_ends}
use hacker_os_builder.Hk.LexValue.Total.{inner-brackets, parse_scalar_or_array_total}
use hacker_os_builder.Hk.Store.{no_store, alloc, HkConfig, new_hk_config}
use hacker_os_builder.Hk.Store.WellFormed.{
  IsWellFormed, rank_at, next-set_at, next-alloc, alloc-IsWellFormed, alloc-IsDetached,
}
use hacker_os_builder.Hk.Insert.{insert_with_dot_expansion}
use hacker_os_builder.Hk.Insert.Steps.{slot-cases}
use hacker_os_builder.Hk.Insert.Leaf.{IsNew-leaf}
use hacker_os_builder.Hk.Insert.Laws.{opened, rank_opened, opened-IsWellFormed, insert-Placed}
use hacker_os_builder.Hk.Parser.Steps.{
  strip_quotes_total, slice_from-index, enter_section-absent, enter_section-map,
  enter_section-other,
}
use hacker_os_builder.Hk.Parser.{
  named_section, Parser, open_section, enter_section, handle_section_header, count_dash_depth,
  open_map, assign, arrow_text, key_in_map, key_at_depth, handle_key_line, is_skipped, parse_line,
  parse_lines, start, parse,
}

-- The maps form no cycle, and the sections and the stack lead to maps in use.
pub record IsSound (p : Parser) : Type 0 where
  pub rank : ℕ → ℕ
  pub well_formed : IsWellFormed p.store rank
  pub root : p.sections < p.store.next
  pub stack : All (λ a. a < p.store.next) p.node_stack

-- A result, if it is one, is sound.
abbrev Keeps : Result Parser → Type 0
Keeps (ok p) = IsSound p
Keeps _ = Unit

bind-Keeps {ℓ} :
    {A : Type ℓ} (m : Result A) (f : A → Result Parser)
    → ((a : A) → m ≡ ok a → Keeps (f a))
    → Keeps (m >>= f)
bind-Keeps (ok a) f k = k a refl
bind-Keeps (err e) f k = tt
bind-Keeps panic f k = tt

no_store-IsWellFormed : IsWellFormed no_store (λ a. 0)
unfolding get new_ordered_map
no_store-IsWellFormed = record {
  valid = λ a. new_ordered_map-IsValid;
  upward = λ a k b h. cc;
  in_use = λ a k b h. cc;
  fresh = λ a k h. refl;
  bounded = λ a h. elim h [ ];
}

start-IsSound : IsSound start
unfolding new_hk_config
start-IsSound = record {
  rank = rank_at (λ a. 0) 0 0;
  well_formed = alloc-IsWellFormed no_store (λ a. 0) no_store-IsWellFormed;
  root = omega (arith, next-alloc no_store);
  stack = tt;
}

next-opened : (p : Parser) (name : Bytes) → (opened p.store p.sections name).next ≡ p.store.next + 1
next-opened p name =
    next-set_at (alloc p.store) p.sections name (map p.store.next) ∙ next-alloc p.store

enter_section-Keeps : (p : Parser) (name : Bytes) → IsSound p → Keeps (enter_section p name)
unfolding open_section
enter_section-Keeps p name v = elim (slot-cases (get (p.store.cell p.sections) name)) [
  | inl absent ↦ rw (enter_section-absent p name absent) (record {
    rank = rank_opened p.store v.rank p.sections;
    well_formed = opened-IsWellFormed p.store v.rank p.sections name v.well_formed v.root;
    root = omega (arith, next-opened p name, v.root);
    stack = (omega (arith, next-opened p name), tt);
  })
  | inr (inl (m, down)) ↦ rw (enter_section-map p name m down) (record {
    rank = v.rank;
    well_formed = v.well_formed;
    root = v.root;
    stack = (v.well_formed.in_use p.sections name m down, tt);
  })
  | inr (inr (x, leaf, other)) ↦ rw (enter_section-other p name x leaf other) tt
]

handle_section_header-Keeps :
    (p : Parser) (line : Bytes) (n : ℕ) (raw : Bytes)
    → has_prefix line (b'[' ∷ []) ≡ true
    → IsSound p
    → Keeps (handle_section_header p line n raw)
unfolding handle_section_header named_section
handle_section_header-Keeps p line n raw opened v =
    elim (Bool-cases (has_suffix line (b']' ∷ []))) [
      | inr unclosed ↦ rw unclosed tt
      | inl closed ↦ rw closed (
          rw (inner-brackets line opened closed)
            (elim (Bool-cases (is_empty (trim_space (cut_ends line)))) [
              | inl empty ↦ rw empty tt
              | inr named ↦ rw named (enter_section-Keeps p (trim_space (cut_ends line)) v)
            ]))
    ]

-- The addresses in use stay in use where the store grows.
All-grows : (n m : ℕ) (xs : List ℕ) → n ≤ m → All (λ a. a < n) xs → All (λ a. a < m) xs
All-grows n m xs le = All-map (λ a. a < n) (λ a. a < m) (λ a h. omega arith) xs

open_map-Keeps :
    (p : Parser) (target : ℕ) (rest : Bytes)
    → target < p.store.next
    → IsSound p
    → Keeps (open_map p target rest)
unfolding open_map
open_map-Keeps p target rest lt v =
    let (key, stripped) = strip_quotes_total (trim_space rest) in
    rw stripped (
      bind-Keeps (insert_with_dot_expansion (alloc p.store) target _ (map p.store.next)) _ λ s' e.
        let placed =
          insert-Placed (alloc p.store) (rank_at v.rank p.store.next 0) target _ (map p.store.next)
            (alloc-IsWellFormed p.store v.rank v.well_formed) (omega (arith, next-alloc p.store))
            (alloc-IsDetached p.store v.rank v.well_formed, omega arith) s' e in
        let more : p.store.next + 1 ≤ s'.next = omega (arith, placed.grows, next-alloc p.store) in
        record {
          rank = placed.rank';
          well_formed = placed.well_formed;
          root = omega (arith, v.root);
          stack =
              All-append (λ a. a < s'.next) p.node_stack (p.store.next ∷ [])
                (All-grows p.store.next s'.next p.node_stack (omega arith) v.stack)
                (omega arith, tt);
        })

assign-Keeps :
    (fl : Floats) (p : Parser) (target : ℕ) (rest : Bytes) (arrow depth n : ℕ) (raw : Bytes)
    → target < p.store.next
    → IsSound p
    → index rest arrow_text ≡ some arrow
    → Keeps (assign fl p target rest arrow depth n raw)
unfolding assign
assign-Keeps fl p target rest arrow depth n raw lt v found =
    rw (slice_from-index rest arrow found)
      (elim (Bool-cases (is_empty (trim_space (take arrow rest)))) [
        | inl empty ↦ rw empty tt
        | inr named ↦
            let (x, read, leaf) =
              parse_scalar_or_array_total fl (trim_space (drop (arrow + 2) rest)) in
            let (key, stripped) = strip_quotes_total (trim_space (take arrow rest)) in
            rw named (
              rw read (
                rw stripped (
                  bind-Keeps (insert_with_dot_expansion p.store target _ x) _ λ s' e.
                    let placed =
                      insert-Placed p.store v.rank target _ x v.well_formed lt
                        (IsNew-leaf p.store v.rank x target leaf) s' e in
                    record {
                      rank = placed.rank';
                      well_formed = placed.well_formed;
                      root = omega (arith, v.root, placed.grows);
                      stack = All-grows p.store.next s'.next p.node_stack placed.grows v.stack;
                    })))
      ])

key_in_map-Keeps :
    (fl : Floats) (p : Parser) (target : ℕ) (rest : Bytes) (depth n : ℕ) (raw : Bytes)
    → target < p.store.next
    → IsSound p
    → Keeps (key_in_map fl p target rest depth n raw)
unfolding key_in_map
key_in_map-Keeps fl p target rest depth n raw lt v = elim (Option-cases (index rest arrow_text)) [
  | inl none_there ↦ rw (none_there, key_in_map) (open_map-Keeps p target rest lt v)
  | inr (arrow, there) ↦
      rw (there, key_in_map) (assign-Keeps fl p target rest arrow depth n raw lt v there)
]

cut-IsSound :
    (p : Parser) (depth : ℕ)
    → IsSound p
    → IsSound
        (record p { node_stack = take depth p.node_stack; key_stack = take depth p.key_stack })
cut-IsSound p depth v = record {
  rank = v.rank;
  well_formed = v.well_formed;
  root = v.root;
  stack = All-take (λ a. a < p.store.next) depth p.node_stack v.stack;
}

key_at_depth-Keeps :
    (fl : Floats) (p : Parser) (depth : ℕ) (rest : Bytes) (n : ℕ) (raw : Bytes)
    → IsSound p
    → Keeps (key_at_depth fl p depth rest n raw)
unfolding key_at_depth
key_at_depth-Keeps fl p depth rest n raw v = elim (Bool-cases (is_empty rest)) [
  | inl empty ↦ rw empty tt
  | inr named ↦ rw named (elim (Bool-cases (ltb (length p.node_stack) depth)) [
    | inl deep ↦ rw deep tt
    | inr fits ↦
        let kept = cut-IsSound p depth v in
        rw fits (elim (Option-cases (get_elem? (take depth p.node_stack) (depth - 1))) [
          | inl out ↦ rw (out, key_at_depth) tt
          | inr (target, at) ↦
              rw (at, key_at_depth)
                (key_in_map-Keeps fl _ target rest depth n raw
                  (All-get_elem? (λ a. a < p.store.next) (take depth p.node_stack) (depth - 1)
                    target at kept.stack)
                  kept)
        ])
  ])
]

handle_key_line-Keeps :
    (fl : Floats) (p : Parser) (line : Bytes) (n : ℕ) (raw : Bytes)
    → IsSound p
    → Keeps (handle_key_line fl p line n raw)
unfolding handle_key_line
handle_key_line-Keeps fl p line n raw v = elim (Bool-cases (is_empty p.current_section)) [
  | inl outside ↦ rw outside tt
  | inr inside ↦ rw inside (
      bind-Keeps (count_dash_depth line n raw) _
        λ counted e. key_at_depth-Keeps fl p counted.0 (trim_space counted.1) n raw v)
]

-- A line, whatever it holds, leaves a sound state if it is accepted.
pub parse_line-Keeps :
    (fl : Floats) (p : Parser) (n : ℕ) (raw : Bytes) → IsSound p → Keeps (parse_line fl p n raw)
unfolding parse_line
parse_line-Keeps fl p n raw v =
    let line = trim_space raw in
    elim (Bool-cases (is_skipped line)) [
      | inl skipped ↦ rw skipped v
      | inr content ↦ rw content (elim (Bool-cases (has_prefix line (b'[' ∷ []))) [
        | inl header ↦ rw header (handle_section_header-Keeps p line n raw header v)
        | inr other ↦ rw other (elim (Bool-cases (has_prefix line (b'-' ∷ []))) [
          | inl key ↦ rw key (handle_key_line-Keeps fl p line n raw v)
          | inr unknown ↦ rw unknown tt
        ])
      ])
    ]

parse_lines-Keeps :
    (fl : Floats) (p : Parser) (seen : ℕ) (lines : List Bytes)
    → IsSound p
    → Keeps (parse_lines fl p seen lines)
unfolding parse_lines
parse_lines-Keeps fl p seen [] v = v
parse_lines-Keeps fl p seen (raw ∷ lines) v =
    bind-Keeps (parse_line fl p (seen + 1) raw) (λ q. parse_lines fl q (seen + 1) lines)
      λ q e.
        parse_lines-Keeps fl q (seen + 1) lines (rw e at (parse_line-Keeps fl p (seen + 1) raw v))

-- Every configuration that the parser returns is sound: its maps have distinct keys, they form
-- no cycle, and the map of sections is one of them.
pub parse-IsWellFormed :
    (fl : Floats) (lines : List Bytes) (c : HkConfig)
    → parse fl lines ≡ ok c
    → (rank : ℕ → ℕ) × IsWellFormed c.store rank × (c.sections < c.store.next)
unfolding parse
parse-IsWellFormed fl lines c h =
    let (p, read, made) = >>=-succeeds (parse_lines fl start 0 lines) _ h in
    let v : IsSound p = rw read at (parse_lines-Keeps fl start 0 lines start-IsSound) in
    let e : record { store = p.store; sections = p.sections } ≡ c = ok-injective made in
    subst (λ t. (rank : ℕ → ℕ) × IsWellFormed t.store rank × (t.sections < t.store.next)) e
      (v.rank, v.well_formed, v.root)
