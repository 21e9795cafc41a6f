-- ===== src/Hk/Path/Laws.antt =====
-- Paths that are joined and split, and indices that are printed and read.
use hacker_os_builder.Prelude.{
  is_empty, ℕ, zero, suc, ◌+◌, ◌*◌, ◌/◌, ◌%◌, ◌<◌, Bool, true, false, not, ◌&&◌, some, List, [],
  ◌∷◌, ◌++◌, ◌==◌, ltb, leb, ◌^◌, Bytes, take, ◌≡◌, ◌≢◌, refl, ap, ◌∙◌, sym, arith, append_assoc,
  append-nil, All, All-map, All-append, Bool-cases, inl, inr, length, take-append, drop_behind,
  length-append,
}
use hacker_os_builder.Text.Search.{index_byte, has_byte, index_byte-append, has_byte-append}
use hacker_os_builder.Text.Decimal.{digits_onto, print_ℕ, has_byte-print_ℕ}
use hacker_os_builder.Text.Decimal.{pos}
use hacker_os_builder.Text.Pieces.{join}
use hacker_os_builder.Text.Runes.{IsAscii, reencode-IsAscii}
use hacker_os_builder.Hk.Path.{
  split_from, split_path, int_mod, index_digits, index_in, parse_array_index,
}

is_empty-concat {ℓ} : {A : Type ℓ} (xs : List A) (x : A) → is_empty (xs ++ x ∷ []) ≡ false
is_empty-concat [] x = refl
is_empty-concat (y ∷ xs) x = refl

-- A byte that splitPath copies.
abbrev pub is_plain : ℕ → Bool
is_plain c = ltb c 0x80 && not (c == b'"') && not (c == b'.')

abbrev pub IsSegment : Bytes → Type 0
IsSegment = All (λ c. is_plain c ≡ true)

split_from-IsSegment :
    (segments : List Bytes) (cur p rest : Bytes)
    → IsSegment p
    → split_from false segments cur (p ++ rest) ≡ split_from false segments (cur ++ p) rest
unfolding split_from
split_from-IsSegment segments cur [] rest h = rw append-nil
split_from-IsSegment segments cur (c ∷ p) rest h = ground (
  arith,
  h.0,
  split_from-IsSegment segments (cur ++ c ∷ []) p rest h.1,
  append_assoc cur (c ∷ []) p,
)

-- behind a first segment
split_from-join :
    (segments : List Bytes) (p : Bytes) (ps : List Bytes)
    → is_empty segments ≡ false
    → All IsSegment (p ∷ ps)
    → split_from false segments [] (join (b'.' ∷ []) (p ∷ ps)) ≡ segments ++ p ∷ ps
unfolding split_from join
split_from-join segments p [] e h =
    ap (split_from false segments []) (sym (append-nil p))
    ∙ split_from-IsSegment segments [] p [] h.0
    ∙ ground arith
split_from-join segments p (q ∷ ps) e h =
    split_from-IsSegment segments [] p _ h.0
    ∙ split_from-join (segments ++ p ∷ []) q ps (is_empty-concat segments p) h.1
    ∙ append_assoc segments (p ∷ []) (q ∷ ps)

IsSegment-IsAscii : (p : Bytes) → IsSegment p → IsAscii p
IsSegment-IsAscii = All-map (λ c. is_plain c ≡ true) (λ c. ltb c 0x80 ≡ true) (λ c h. ground arith)

join-IsAscii : (ps : List Bytes) → All IsSegment ps → IsAscii (join (b'.' ∷ []) ps)
unfolding join
join-IsAscii [] h = tt
join-IsAscii (p ∷ []) h = IsSegment-IsAscii p h.0
join-IsAscii (p ∷ q ∷ ps) h =
    All-append (λ c. ltb c 0x80 ≡ true) p _ (IsSegment-IsAscii p h.0)
      (refl, join-IsAscii (q ∷ ps) h.1)

split_path-IsAscii : (s : Bytes) → IsAscii s → split_path s ≡ split_from false [] [] s
unfolding split_path
split_path-IsAscii s h = ap (split_from false [] []) (reencode-IsAscii s h)

-- Segments with no dot and no quotation mark, joined by dots, are split into themselves.
pub split_path-join :
    (p : Bytes) (ps : List Bytes)
    → p ≢ []
    → All IsSegment (p ∷ ps)
    → split_path (join (b'.' ∷ []) (p ∷ ps)) ≡ p ∷ ps
unfolding split_from join
split_path-join [] ps ne h = absurd (ne refl)
split_path-join (c ∷ p) [] ne h =
    split_path-IsAscii (c ∷ p) (join-IsAscii ((c ∷ p) ∷ []) h)
    ∙ ap (split_from false [] []) (sym (append-nil (c ∷ p)))
    ∙ split_from-IsSegment [] [] (c ∷ p) [] h.0
split_path-join (c ∷ p) (q ∷ ps) ne h =
    split_path-IsAscii (join (b'.' ∷ []) ((c ∷ p) ∷ q ∷ ps)) (join-IsAscii ((c ∷ p) ∷ q ∷ ps) h)
    ∙ split_from-IsSegment [] [] (c ∷ p) (b'.' ∷ join (b'.' ∷ []) (q ∷ ps)) h.0
    ∙ split_from-join ((c ∷ p) ∷ []) q ps refl h.1

index_digits_digit :
    (d m : ℕ) (acc : Bytes) (started : Bool)
    → d < 10
    → m * 10 + d < int_mod
    → index_digits ((b'0' + d) ∷ acc) m false started ≡ index_digits acc (m * 10 + d) false true
unfolding index_digits
index_digits_digit d m acc started h k = ground arith

index_digits-digits_onto :
    (fuel n : ℕ) (acc : Bytes) (started : Bool)
    → n < fuel
    → n < int_mod
    → index_digits (digits_onto fuel n acc) 0 false started ≡ index_digits acc n false true
unfolding digits_onto
index_digits-digits_onto zero n acc started h k = absurd (omega arith)
index_digits-digits_onto (suc fuel) n acc started h k =
    let d = n % 10 in
    let whole : n / 10 * 10 + d ≡ n = omega arith in
    elim (Bool-cases (n / 10 == 0)) [
      | inl last ↦ rw last (
          index_digits_digit d 0 acc started (omega arith) (omega arith)
          ∙ ap (λ m. index_digits acc m false true) (ground arith))
      | inr more ↦ rw more (
          index_digits-digits_onto fuel (n / 10) ((b'0' + d) ∷ acc) started (ground arith)
            (omega arith)
          ∙ index_digits_digit d (n / 10) acc true (omega arith) (omega arith)
          ∙ ap (λ m. index_digits acc m false true) whole)
    ]

parse_array_index_at :
    (segment : Bytes) (o c : ℕ)
    → index_byte segment b'[' ≡ some o
    → index_byte segment b']' ≡ some c
    → parse_array_index segment ≡ index_in segment o c
unfolding parse_array_index
parse_array_index_at segment o c h k = rw (h, parse_array_index) (rw (k, parse_array_index))

index_in-cut :
    (base digits rest : Bytes) (n : ℕ)
    → index_digits digits 0 false false ≡ some (n, false)
    → n < 2 ^ 63
    → index_in ((base ++ b'[' ∷ digits) ++ rest) (length base) (length (base ++ b'[' ∷ digits))
      ≡ record { index = pos n; has_index = true; base = base }
unfolding index_in
index_in-cut base digits rest n h small =
    let inner = base ++ b'[' ∷ digits in
    let after : ltb (length inner) (length base) ≡ false =
      ground (arith, length-append base (b'[' ∷ digits)) in
    let kept : take (length base) (inner ++ rest) ≡ base =
      rw (append_assoc base (b'[' ∷ digits) rest) (take-append base ((b'[' ∷ digits) ++ rest)) in
    let positive : leb (2 ^ 63) n ≡ false = ground (arith, small) in
    rw after (
      rw (take-append inner rest)
        (rw (drop_behind base b'[' digits) (rw h (rw kept (rw positive refl)))))

has_byte_index : (n : ℕ) → has_byte b']' (b'[' ∷ print_ℕ n) ≡ false
unfolding has_byte
has_byte_index n = has_byte-print_ℕ b']' n (inr (omega arith))

-- "base[n]", for a base without brackets and an n below 2 ^ 63, is read as the index n behind the
-- base.
pub parse_array_index-print_ℕ :
    (base : Bytes) (n : ℕ)
    → has_byte b'[' base ≡ false
    → has_byte b']' base ≡ false
    → n < 2 ^ 63
    → parse_array_index (base ++ b'[' ∷ (print_ℕ n ++ b']' ∷ []))
      ≡ record { index = pos n; has_index = true; base = base }
unfolding index_digits print_ℕ
parse_array_index-print_ℕ base n h k lt =
    let digits = print_ℕ n in
    let front : base ++ b'[' ∷ (digits ++ b']' ∷ []) ≡ (base ++ b'[' ∷ digits) ++ b']' ∷ [] =
      sym (append_assoc base (b'[' ∷ digits) (b']' ∷ [])) in
    parse_array_index_at (base ++ b'[' ∷ (digits ++ b']' ∷ [])) (length base)
      (length (base ++ b'[' ∷ digits)) (index_byte-append b'[' base (digits ++ b']' ∷ []) h)
      (rw front (
        index_byte-append b']' (base ++ b'[' ∷ digits) []
          (ground (arith, has_byte-append b']' base (b'[' ∷ print_ℕ n), has_byte_index n, k))))
    ∙ ap (λ s. index_in s (length base) (length (base ++ b'[' ∷ digits))) front
    ∙ index_in-cut base digits (b']' ∷ []) n
        (index_digits-digits_onto (suc n) n [] false (omega arith) (omega arith)) lt
