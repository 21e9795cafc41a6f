-- ===== src/Text/Runes.antt =====
-- `for _, r := range s { b.WriteRune(r) }`: the bytes of a text, decoded and encoded again.
-- A byte that begins no valid character becomes U+FFFD (EF BF BD). A loop over the characters
-- that only tests for ASCII ones does the same as a loop over the bytes of this text.
use hacker_os_builder.Prelude.{
  ℕ, zero, suc, Bool, true, false, ◌&&◌, [], ◌∷◌, ◌≡◌, refl, arith, ◌==◌, leb, ltb, if◌then◌else◌,
  Bytes, All,
}

abbrev within : ℕ → ℕ → ℕ → Bool
within lo hi c = leb lo c && leb c hi

-- the range of the second byte, by the first one
second : ℕ → ℕ → Bool
second a b =
    if a == 0xE0
    then within 0xA0 0xBF b
    else if a == 0xED
    then within 0x80 0x9F b
    else if a == 0xF0
    then within 0x90 0xBF b
    else if a == 0xF4
    then within 0x80 0x8F b
    else within 0x80 0xBF b

-- how many bytes follow the first one of a valid character, or 0
rest_width : Bytes → ℕ
unfolding second
rest_width (a ∷ b ∷ c ∷ d ∷ s) =
    if within 0xC2 0xDF a && second a b
    then 1
    else if within 0xE0 0xEF a && second a b && within 0x80 0xBF c
    then 2
    else if within 0xF0 0xF4 a && second a b && within 0x80 0xBF c && within 0x80 0xBF d
    then 3
    else 0
rest_width (a ∷ b ∷ c ∷ []) =
    if within 0xC2 0xDF a && second a b
    then 1
    else if within 0xE0 0xEF a && second a b && within 0x80 0xBF c
    then 2
    else 0
rest_width (a ∷ b ∷ []) = if within 0xC2 0xDF a && second a b then 1 else 0
rest_width (a ∷ []) = 0
rest_width [] = 0

-- The first argument counts the bytes left of the character being copied.
reencode_from : ℕ → Bytes → Bytes
unfolding rest_width
reencode_from n [] = []
reencode_from (suc n) (x ∷ s) = x ∷ reencode_from n s
reencode_from zero (x ∷ s) = elim (ltb x 0x80) [
  | true ↦ x ∷ reencode_from 0 s
  | false ↦ elim (rest_width (x ∷ s)) [
    | zero ↦ 0xEF ∷ 0xBF ∷ 0xBD ∷ reencode_from 0 s
    | suc n ↦ x ∷ reencode_from (suc n) s
  ]
]

unfoldable pub reencode : Bytes → Bytes
unfolding reencode_from
reencode = reencode_from 0

abbrev pub IsAscii : Bytes → Type 0
IsAscii = All (λ x. ltb x 0x80 ≡ true)

-- ASCII text is copied as it is.
pub reencode-IsAscii : (s : Bytes) → IsAscii s → reencode s ≡ s
unfolding reencode
reencode-IsAscii [] h = refl
reencode-IsAscii (x ∷ s) h = ground (arith, reencode-IsAscii s h.1)

reencode_runs :
    reencode (0xC5 ∷ 0x82 ∷ 0x80 ∷ 97 ∷ 0xE2 ∷ 0x82 ∷ 0xAC ∷ 0xF0 ∷ [])
    ≡ 0xC5 ∷ 0x82 ∷ 0xEF ∷ 0xBF ∷ 0xBD ∷ 97 ∷ 0xE2 ∷ 0x82 ∷ 0xAC ∷ 0xEF ∷ 0xBF ∷ 0xBD ∷ []
unfolding reencode
reencode_runs = refl
