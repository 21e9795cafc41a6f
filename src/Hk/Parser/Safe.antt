-- ===== src/Hk/Parser/Safe.antt =====
-- The errors of the parser, and the lines that they name.
use hacker_os_builder.Prelude.{
  true, is_empty, ℕ, ◌+◌, ◌-◌, ◌<◌, not, ◌||◌, some, List, [], ◌∷◌, ◌++◌, ◌==◌, ltb, Bytes, length,
  take, drop, get_elem?, get_elem?_total, length-take, ◌≡◌, refl, arith, Bool-cases, inl, inr,
  Option-cases,
}
use hacker_os_builder.Text.Search.{has_prefix, has_suffix, index}
use hacker_os_builder.Text.Space.{trim_space}
use hacker_os_builder.Hk.Errors.{parse_error, key_conflict, Result, ok, err, panic, ◌>>=◌}
use hacker_os_builder.Hk.OrderedMap.{get}
use hacker_os_builder.Hk.Path.{split_path}
use hacker_os_builder.Hk.Value.{Floats, HkValue, map}
use hacker_os_builder.Hk.LexValue.{cut_ends}
use hacker_os_builder.Hk.LexValue.Total.{inner-brackets, parse_scalar_or_array_total}
use hacker_os_builder.Hk.Store.{Store, alloc, set_at}
use hacker_os_builder.Hk.Insert.{
  conflicts, put_leaf, insert_segments, insert_at, insert_with_dot_expansion,
}
use hacker_os_builder.Hk.Insert.Steps.{
  slot-cases, insert_segments-absent, insert_segments-map, insert_segments-other,
}
use hacker_os_builder.Hk.Parser.Steps.{
  strip_quotes_total, slice_from-index, slice_from-get_elem?, enter_section-absent,
  enter_section-map, enter_section-other,
}
use hacker_os_builder.Hk.Parser.{
  named_section, Parser, enter_section, handle_section_header, dashes, count_dash_depth, open_map,
  assign, arrow_text, key_in_map, key_at_depth, handle_key_line, is_skipped, parse_line,
}

-- A result that is no panic, and whose error is a ParseError at this line or a KeyConflict.
abbrev pub Located {ℓ} : {A : Type ℓ} → ℕ → Bytes → Result A → Type 0
Located n raw (ok a) = Unit
Located n raw (err (parse_error e)) = (e.line ≡ n) × (e.source_line ≡ raw)
Located n raw (err (key_conflict k)) = Unit
Located n raw _ = ⊥

module _ (n : ℕ) (raw : Bytes) where
  bind-Located {ℓ κ} :
      {A : Type ℓ} {B : Type κ} (m : Result A) (f : A → Result B)
      → Located n raw m
      → ((a : A) → m ≡ ok a → Located n raw (f a))
      → Located n raw (m >>= f)
  bind-Located (ok a) f h k = k a refl
  bind-Located (err e) f h k = h
  bind-Located panic f h k = h

  put_leaf-Located :
      (s : Store) (target : ℕ) (name key : Bytes) (value : HkValue)
      → Located n raw (put_leaf s target name key value)
  unfolding put_leaf
  put_leaf-Located s target name key value =
      elim (Bool-cases (conflicts (get (s.cell target) name) value)) [
        | inl conflict ↦ rw conflict tt
        | inr free ↦ rw free tt
      ]

  insert_segments-Located :
      (s : Store) (cur : ℕ) (seen : List Bytes) (key : Bytes) (value : HkValue) (seg : Bytes)
      (rest : List Bytes)
      → Located n raw (insert_segments s cur seen key value seg rest)
  unfolding insert_segments
  insert_segments-Located s cur seen key value seg [] = put_leaf-Located s cur seg key value
  insert_segments-Located s cur seen key value seg (next ∷ rest) =
      elim (slot-cases (get (s.cell cur) seg)) [
        | inl absent ↦ rw (insert_segments-absent s cur seen key value seg next rest absent) (
            insert_segments-Located (set_at (alloc s) cur seg (map s.next)) s.next
              (seen ++ seg ∷ []) key value next rest)
        | inr (inl (m, down)) ↦
            rw (insert_segments-map s cur m seen key value seg next rest down)
              (insert_segments-Located s m (seen ++ seg ∷ []) key value next rest)
        | inr (inr (v, leaf, other)) ↦
            rw (insert_segments-other s cur seen key value seg next rest v leaf other) tt
      ]

  insert_at-Located :
      (s : Store) (target : ℕ) (key : Bytes) (value : HkValue) (segs : List Bytes)
      → Located n raw (insert_at s target key value segs)
  unfolding insert_at
  insert_at-Located s target key value [] = put_leaf-Located s target key key value
  insert_at-Located s target key value (seg ∷ []) = put_leaf-Located s target key key value
  insert_at-Located s target key value (seg ∷ next ∷ rest) =
      insert_segments-Located s target [] key value seg (next ∷ rest)

  insert-Located :
      (s : Store) (target : ℕ) (key : Bytes) (value : HkValue)
      → Located n raw (insert_with_dot_expansion s target key value)
  unfolding insert_with_dot_expansion
  insert-Located s target key value = insert_at-Located s target key value (split_path key)

  enter_section-Located : (p : Parser) (name : Bytes) → Located n raw (enter_section p name)
  enter_section-Located p name = elim (slot-cases (get (p.store.cell p.sections) name)) [
    | inl absent ↦ rw (enter_section-absent p name absent) tt
    | inr (inl (m, down)) ↦ rw (enter_section-map p name m down) tt
    | inr (inr (v, leaf, other)) ↦ rw (enter_section-other p name v leaf other) tt
  ]

  handle_section_header-Located :
      (p : Parser) (line : Bytes)
      → has_prefix line (b'[' ∷ []) ≡ true
      → Located n raw (handle_section_header p line n raw)
  unfolding handle_section_header named_section
  handle_section_header-Located p line opened = elim (Bool-cases (has_suffix line (b']' ∷ []))) [
    | inr unclosed ↦ rw unclosed (refl, refl)
    | inl closed ↦ rw closed (
        rw (inner-brackets line opened closed)
          (elim (Bool-cases (is_empty (trim_space (cut_ends line)))) [
            | inl empty ↦ rw empty (refl, refl)
            | inr named ↦ rw named (enter_section-Located p (trim_space (cut_ends line)))
          ]))
  ]

  open_map-Located :
      (p : Parser) (target : ℕ) (rest : Bytes) → Located n raw (open_map p target rest)
  unfolding open_map
  open_map-Located p target rest =
      let (key, stripped) = strip_quotes_total (trim_space rest) in
      rw stripped (
        bind-Located (insert_with_dot_expansion (alloc p.store) target _ (map p.store.next)) _
          (insert-Located (alloc p.store) target _ (map p.store.next)) (λ s e. tt))

  assign-Located :
      (fl : Floats) (p : Parser) (target : ℕ) (rest : Bytes) (arrow depth : ℕ)
      → index rest arrow_text ≡ some arrow
      → Located n raw (assign fl p target rest arrow depth n raw)
  unfolding assign
  assign-Located fl p target rest arrow depth found =
      rw (slice_from-index rest arrow found)
        (elim (Bool-cases (is_empty (trim_space (take arrow rest)))) [
          | inl empty ↦ rw empty (refl, refl)
          | inr named ↦
              let (v, read, _) =
                parse_scalar_or_array_total fl (trim_space (drop (arrow + 2) rest)) in
              let (key, stripped) = strip_quotes_total (trim_space (take arrow rest)) in
              rw named (
                rw read (
                  rw stripped (
                    bind-Located (insert_with_dot_expansion p.store target _ v) _
                      (insert-Located p.store target _ v) (λ s e. tt))))
        ])

  key_in_map-Located :
      (fl : Floats) (p : Parser) (target : ℕ) (rest : Bytes) (depth : ℕ)
      → Located n raw (key_in_map fl p target rest depth n raw)
  unfolding key_in_map
  key_in_map-Located fl p target rest depth = elim (Option-cases (index rest arrow_text)) [
    | inl none_there ↦ rw (none_there, key_in_map) (open_map-Located p target rest)
    | inr (arrow, there) ↦
        rw (there, key_in_map) (assign-Located fl p target rest arrow depth there)
  ]

  key_at_depth-Located :
      (fl : Floats) (p : Parser) (depth : ℕ) (rest : Bytes)
      → 0 < depth
      → Located n raw (key_at_depth fl p depth rest n raw)
  unfolding key_at_depth
  key_at_depth-Located fl p depth rest h = elim (Bool-cases (is_empty rest)) [
    | inl empty ↦ rw empty (refl, refl)
    | inr named ↦ rw named (elim (Bool-cases (ltb (length p.node_stack) depth)) [
      | inl deep ↦ rw deep (refl, refl)
      | inr fits ↦
          let (target, at) =
            get_elem?_total (take depth p.node_stack) (depth - 1)
              (ground (arith, length-take depth p.node_stack)) in
          rw fits (rw (at, key_at_depth) (key_in_map-Located fl _ target rest depth))
    ])
  ]

  -- a depth that is counted is positive
  abbrev Counts : Result (ℕ × Bytes) → Type 0
  Counts (ok (d, rest)) = 0 < d
  Counts (err e) = Located {A = ℕ} n raw (err e)
  Counts panic = ⊥

  count_dash_depth-Counts : (line : Bytes) → Counts (count_dash_depth line n raw)
  unfolding count_dash_depth
  count_dash_depth-Counts line = elim (Option-cases (get_elem? line (dashes line))) [
    | inl short ↦ rw (short, count_dash_depth) (refl, refl)
    | inr (c, there) ↦ elim (Bool-cases (dashes line == 0 || not (c == b'>'))) [
      | inl bad ↦ rw (there, count_dash_depth) (rw bad (refl, refl))
      | inr good ↦
          rw (there, count_dash_depth)
            (rw good (rw (slice_from-get_elem? line (dashes line) c there) (ground arith)))
    ]
  ]

  bind-Counts {ℓ} :
      {B : Type ℓ} (m : Result (ℕ × Bytes)) (f : ℕ × Bytes → Result B)
      → Counts m
      → ((d : ℕ) (rest : Bytes) → 0 < d → Located n raw (f (d, rest)))
      → Located n raw (m >>= f)
  bind-Counts (ok (d, rest)) f h k = k d rest h
  bind-Counts (err e) f h k = h
  bind-Counts panic f h k = h

  handle_key_line-Located :
      (fl : Floats) (p : Parser) (line : Bytes) → Located n raw (handle_key_line fl p line n raw)
  unfolding handle_key_line
  handle_key_line-Located fl p line = elim (Bool-cases (is_empty p.current_section)) [
    | inl outside ↦ rw outside (refl, refl)
    | inr inside ↦ rw inside (
        bind-Counts (count_dash_depth line n raw) _ (count_dash_depth-Counts line)
          λ d rest h. key_at_depth-Located fl p d (trim_space rest) h)
  ]

  -- A line is refused with an error that names it, or for a conflict of keys.
  pub parse_line-Located : (fl : Floats) (p : Parser) → Located n raw (parse_line fl p n raw)
  unfolding parse_line
  parse_line-Located fl p =
      let line = trim_space raw in
      elim (Bool-cases (is_skipped line)) [
        | inl skipped ↦ rw skipped tt
        | inr content ↦ rw content (elim (Bool-cases (has_prefix line (b'[' ∷ []))) [
          | inl header ↦ rw header (handle_section_header-Located p line header)
          | inr other ↦ rw other (elim (Bool-cases (has_prefix line (b'-' ∷ []))) [
            | inl key ↦ rw key (handle_key_line-Located fl p line)
            | inr unknown ↦ rw unknown (refl, refl)
          ])
        ])
      ]

-- No panic, and an error is a conflict of keys or names one of these lines by its number and text.
abbrev pub Blames {ℓ} : {A : Type ℓ} → ℕ → List Bytes → Result A → Type 0
Blames seen lines (ok a) = Unit
Blames seen lines (err (parse_error e)) =
    (i : ℕ) × (get_elem? lines i ≡ some e.source_line) × (e.line ≡ seen + i + 1)
Blames seen lines (err (key_conflict k)) = Unit
Blames seen lines _ = ⊥
