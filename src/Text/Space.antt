-- ===== src/Text/Space.antt =====
-- `strings.TrimSpace` and `strings.Fields`. White space is Unicode's: the ASCII ones and the
-- characters whose UTF-8 bytes are listed in `space2` and `space3`.
use hacker_os_builder.Prelude.{
  ℕ, zero, suc, Bool, true, ◌&&◌, ◌||◌, List, [], ◌∷◌, ◌++◌, reverse, ◌≡◌, refl, ◌∙◌, sym, ap,
  arith, ◌==◌, leb, if◌then◌else◌, Bytes, reverse-append, reverse-reverse,
}

unfoldable pub is_space : ℕ → Bool
is_space c = c == b' ' || leb 9 c && leb c 13

-- U+0085 and U+00A0
space2 : ℕ → ℕ → Bool
space2 a b = a == 0xC2 && (b == 0x85 || b == 0xA0)

-- U+1680, U+2000 to U+200A, U+2028, U+2029, U+202F, U+205F, U+3000
space3 : ℕ → ℕ → ℕ → Bool
space3 a b c =
    a == 0xE1 && b == 0x9A && c == 0x80
    || a == 0xE2 && b == 0x80 && (leb 0x80 c && leb c 0x8A || c == 0xA8 || c == 0xA9 || c == 0xAF)
    || a == 0xE2 && b == 0x81 && c == 0x9F
    || a == 0xE3 && b == 0x80 && c == 0x80

-- the length of the white space character that a text begins with, or 0
unfoldable pub space_width : Bytes → ℕ
unfolding is_space space2 space3
space_width [] = 0
space_width (a ∷ []) = if is_space a then 1 else 0
space_width (a ∷ b ∷ []) = if is_space a then 1 else if space2 a b then 2 else 0
space_width (a ∷ b ∷ c ∷ s) =
    if is_space a then 1 else if space2 a b then 2 else if space3 a b c then 3 else 0

-- the same at the end of a text, which is given reversed
unfoldable pub space_width_back : Bytes → ℕ
unfolding is_space space2 space3
space_width_back [] = 0
space_width_back (c ∷ []) = if is_space c then 1 else 0
space_width_back (c ∷ b ∷ []) = if is_space c then 1 else if space2 b c then 2 else 0
space_width_back (c ∷ b ∷ a ∷ s) =
    if is_space c then 1 else if space2 b c then 2 else if space3 a b c then 3 else 0

-- The first argument counts the bytes left of a white space character that is being dropped.
unfoldable pub skip : (Bytes → ℕ) → ℕ → Bytes → Bytes
skip width pending [] = []
skip width (suc n) (x ∷ s) = skip width n s
skip width zero (x ∷ s) = elim (width (x ∷ s)) [ zero ↦ x ∷ s | suc n ↦ skip width n s ]

unfoldable pub trim_space : Bytes → Bytes
unfolding skip space_width space_width_back
trim_space s = reverse (skip space_width_back 0 (reverse (skip space_width 0 s)))

-- The pieces between white space. `cur` holds the bytes of the piece being read.
unfoldable pub fields_from : Bytes → ℕ → Bytes → List Bytes
unfolding space_width
fields_from [] pending [] = []
fields_from (c ∷ cur) pending [] = (c ∷ cur) ∷ []
fields_from cur (suc n) (x ∷ s) = fields_from cur n s
fields_from [] zero (x ∷ s) = elim (space_width (x ∷ s)) [
  | zero ↦ fields_from (x ∷ []) 0 s
  | suc n ↦ fields_from [] n s
]
fields_from (c ∷ cur) zero (x ∷ s) = elim (space_width (x ∷ s)) [
  | zero ↦ fields_from ((c ∷ cur) ++ x ∷ []) 0 s
  | suc n ↦ (c ∷ cur) ∷ fields_from [] n s
]

unfoldable pub fields : Bytes → List Bytes
unfolding fields_from
fields = fields_from [] 0

-- A printable ASCII byte other than the space.
abbrev pub is_graphic : ℕ → Bool
is_graphic c = leb 33 c && leb c 126

pub space_width-graphic : (x : ℕ) (s : Bytes) → is_graphic x ≡ true → space_width (x ∷ s) ≡ 0
unfolding space_width
space_width-graphic x [] h = ground arith
space_width-graphic x (b ∷ []) h = ground arith
space_width-graphic x (b ∷ c ∷ s) h = ground arith

pub space_width_back-graphic :
    (x : ℕ) (s : Bytes) → is_graphic x ≡ true → space_width_back (x ∷ s) ≡ 0
unfolding space_width_back
space_width_back-graphic x [] h = ground arith
space_width_back-graphic x (b ∷ []) h = ground arith
space_width_back-graphic x (b ∷ c ∷ s) h = ground arith

skip_stop :
    (width : Bytes → ℕ) (x : ℕ) (s : Bytes) → width (x ∷ s) ≡ 0 → skip width 0 (x ∷ s) ≡ x ∷ s
unfolding skip
skip_stop width x s h = rw (h, skip)

-- A text that begins and ends with a graphic byte is left alone.
pub trim_space_fixed :
    (a b : ℕ) (s : Bytes)
    → is_graphic a ≡ true
    → is_graphic b ≡ true
    → trim_space (a ∷ (s ++ b ∷ [])) ≡ a ∷ (s ++ b ∷ [])
unfolding trim_space
trim_space_fixed a b s ha hb =
    let back : reverse (a ∷ (s ++ b ∷ [])) ≡ b ∷ reverse (a ∷ s) =
      reverse-append (a ∷ s) (b ∷ []) in
    ap (λ t. reverse (skip space_width_back 0 (reverse t)))
      (skip_stop space_width a (s ++ b ∷ []) (space_width-graphic a _ ha))
    ∙ ap (λ t. reverse (skip space_width_back 0 t)) back
    ∙ ap reverse (
        skip_stop space_width_back b (reverse (a ∷ s))
          (space_width_back-graphic b (reverse (a ∷ s)) hb))
    ∙ sym (ap reverse back)
    ∙ reverse-reverse _

trim_space_runs :
    trim_space (9 ∷ 0xC2 ∷ 0xA0 ∷ 97 ∷ 32 ∷ 98 ∷ 0xE2 ∷ 0x80 ∷ 0xA8 ∷ 10 ∷ []) ≡ 97 ∷ 32 ∷ 98 ∷ []
unfolding trim_space
trim_space_runs = refl

fields_runs : fields (32 ∷ 97 ∷ 98 ∷ 0xC2 ∷ 0xA0 ∷ 99 ∷ 9 ∷ []) ≡ (97 ∷ 98 ∷ []) ∷ (99 ∷ []) ∷ []
unfolding fields
fields_runs = refl
