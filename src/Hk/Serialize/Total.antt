-- ===== src/Hk/Serialize/Total.antt =====
-- The recursion of Serialize over the maps of a configuration.
use hacker_os_builder.Prelude.{
  ℕ, zero, suc, ◌+◌, ◌≤◌, ◌<◌, Option, none, some, List, [], ◌∷◌, ◌++◌, Bytes, ◌≡◌, refl, arith,
}
use hacker_os_builder.Hk.Errors.{Result, ok, err, panic, ◌>>=◌}
use hacker_os_builder.Hk.OrderedMap.{OrderedMap, get}
use hacker_os_builder.Hk.Value.{Floats, HkValue, string, map}
use hacker_os_builder.Hk.Store.{Store, HkConfig}
use hacker_os_builder.Hk.Store.WellFormed.{IsWellFormed}
use hacker_os_builder.Hk.Parser.{parse}
use hacker_os_builder.Hk.Parser.Invariant.{parse-IsWellFormed}
use hacker_os_builder.Hk.Serialize.{
  or_zero, entry_lines, keys_lines, write_map_lines, section_lines, sections_lines, serialize,
}

abbrev Returns {ℓ} : {A : Type ℓ} → Result A → Type ℓ
Returns {A} r = (a : A) × (r ≡ ok a)

Returns-map {ℓ κ} :
    {A : Type ℓ} {B : Type κ} (m : Result A) (f : A → B) → Returns m → Returns (m >>= λ a. ok (f a))
Returns-map (ok a) f h = (f a, refl)
Returns-map (err e) f (a, h) = cc
Returns-map panic f (a, h) = cc

module _ (fl : Floats) where
  -- below a value, only a map calls for more
  entry_lines_total :
      (below : ℕ → ℕ → Result Bytes) (depth : ℕ) (key : Bytes) (val : HkValue)
      → ((m d : ℕ) → val ≡ map m → Returns (below m d))
      → Returns (entry_lines fl below depth key val)
  unfolding entry_lines
  entry_lines_total below depth key (map m) h =
      Returns-map (below m (depth + 1)) _ (h m (depth + 1) refl)
  entry_lines_total below depth key (string x) h = (_, refl)
  entry_lines_total below depth key _ h = (_, refl)

  keys_lines_total :
      (below : ℕ → ℕ → Result Bytes) (m : OrderedMap HkValue) (depth : ℕ) (keys : List Bytes)
      → ((key : Bytes) (a d : ℕ) → or_zero (get m key) ≡ map a → Returns (below a d))
      → Returns (keys_lines fl below m depth keys)
  unfolding keys_lines
  keys_lines_total below m depth [] h = ([], refl)
  keys_lines_total below m depth (key ∷ keys) h =
      let (line, first) = entry_lines_total below depth key (or_zero (get m key)) (h key) in
      let (rest, later) = keys_lines_total below m depth keys h in
      (line ++ rest, rw first (rw later))

  or_zero-map : (o : Option HkValue) (a : ℕ) → or_zero o ≡ map a → o ≡ some (map a)
  or_zero-map none a h = cc
  or_zero-map (some v) a h = cc

  -- The fuel is enough where it reaches from the rank of the map up to the number of addresses.
  write_map_lines_total :
      (fuel : ℕ) (s : Store) (rank : ℕ → ℕ) (a depth : ℕ)
      → IsWellFormed s rank
      → a < s.next
      → s.next ≤ fuel + rank a
      → Returns (write_map_lines fl fuel s a depth)
  unfolding write_map_lines
  write_map_lines_total zero s rank a depth wf lt enough = absurd (omega (arith, wf.bounded a lt))
  write_map_lines_total (suc fuel) s rank a depth wf lt enough =
      keys_lines_total (write_map_lines fl fuel s) (s.cell a) depth (s.cell a).keys λ key b d h.
        let link = or_zero-map (get (s.cell a) key) b h in
        write_map_lines_total fuel s rank b d wf (wf.in_use a key b link)
          (omega (arith, wf.upward a key b link))

  module _ (c : HkConfig) (rank : ℕ → ℕ) (wf : IsWellFormed c.store rank) where
    section_lines_total :
        (name : Bytes) (val : HkValue)
        → ((m : ℕ) → val ≡ map m → m < c.store.next)
        → Returns (section_lines fl c name val)
    unfolding section_lines
    section_lines_total name (map m) h =
        Returns-map (write_map_lines fl c.store.next c.store m 1) _
          (write_map_lines_total c.store.next c.store rank m 1 wf (h m refl) (omega arith))
    section_lines_total name (string x) h = ([], refl)
    section_lines_total name _ h = ([], refl)

    sections_lines_total : (names : List Bytes) → Returns (sections_lines fl c names)
    unfolding sections_lines
    sections_lines_total [] = ([], refl)
    sections_lines_total (name ∷ names) =
        let val = get (c.store.cell c.sections) name in
        let (lines, first) =
          section_lines_total name (or_zero val)
            (λ m h. wf.in_use c.sections name m (or_zero-map val m h)) in
        let (rest, later) = sections_lines_total names in (lines ++ rest, rw first (rw later))

    serialize_total : Returns (serialize fl c)
    unfolding serialize
    serialize_total =
        Returns-map (sections_lines fl c (c.store.cell c.sections).keys) _
          (sections_lines_total (c.store.cell c.sections).keys)

  -- Whatever the parser accepts can be serialized: the recursion over the maps ends.
  pub serialize-parse :
      (lines : List Bytes) (c : HkConfig)
      → parse fl lines ≡ ok c
      → (text : Bytes) × (serialize fl c ≡ ok text)
  serialize-parse lines c h =
      let (rank, wf, root) = parse-IsWellFormed fl lines c h in serialize_total c rank wf
