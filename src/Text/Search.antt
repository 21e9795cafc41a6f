-- ===== src/Text/Search.antt =====
-- `strings.HasPrefix`, `HasSuffix`, `TrimPrefix`, `Index`, `IndexByte`, `Contains`, `ContainsAny`
-- and the comparisons of `ToLower`.
use hacker_os_builder.Prelude.{
  ◌≤◌, &&_iff, Bool-cases, Option-cases, inl, inr, ℕ, suc, ◌+◌, Bool, true, false, ◌&&◌, ◌||◌,
  Option, none, some, [], ◌∷◌, ◌++◌, reverse, ◌≡◌, refl, arith, ◌==◌, leb, if◌then◌else◌, length,
  drop, Bytes, is_some,
}

unfoldable pub has_prefix : Bytes → Bytes → Bool
has_prefix s [] = true
has_prefix [] (p ∷ ps) = false
has_prefix (x ∷ s) (p ∷ ps) = x == p && has_prefix s ps

unfoldable pub has_suffix : Bytes → Bytes → Bool
unfolding has_prefix
has_suffix s p = has_prefix (reverse s) (reverse p)

unfoldable pub trim_prefix : Bytes → Bytes → Bytes
unfolding has_prefix
trim_prefix s p = if has_prefix s p then drop (length p) s else s

-- `none` is -1.
unfoldable pub index : Bytes → Bytes → Option ℕ
unfolding has_prefix
index [] p = if has_prefix [] p then some 0 else none
index (x ∷ s) p =
    let later = index s p in
    if has_prefix (x ∷ s) p then some 0 else elim later [ none ↦ none | some n ↦ some (suc n) ]

has_prefix-fits : (s p : Bytes) → has_prefix s p ≡ true → length p ≤ length s
unfolding has_prefix
has_prefix-fits s [] h = omega arith
has_prefix-fits [] (p ∷ ps) h = cc
has_prefix-fits (x ∷ s) (p ∷ ps) h =
    let rest = has_prefix-fits s ps ((&&_iff (x == p) _).0 h).1 in omega (arith, rest)

-- What is found is inside the text.
pub index-fits : (s p : Bytes) (n : ℕ) → index s p ≡ some n → n + length p ≤ length s
unfolding index
index-fits [] p n h = elim (Bool-cases (has_prefix [] p)) [
  | inl here ↦
      let fits = has_prefix-fits [] p here in
      let e : some 0 ≡ some n = rw here at h in let z : 0 ≡ n = cc in omega (arith, fits, z)
  | inr other ↦ let e : none ≡ some n = rw other at h in cc
]
index-fits (x ∷ s) p n h = elim (Bool-cases (has_prefix (x ∷ s) p)) [
  | inl here ↦
      let fits = has_prefix-fits (x ∷ s) p here in
      let e : some 0 ≡ some n = rw here at h in let z : 0 ≡ n = cc in omega (arith, fits, z)
  | inr other ↦ elim (Option-cases (index s p)) [
    | inl absent ↦ let e : none ≡ some n = rw (other, absent, index) at h in cc
    | inr (m, there) ↦
        let fits = index-fits s p m there in
        let e : some (suc m) ≡ some n = rw (other, there, index) at h in
        let z : suc m ≡ n = cc in omega (arith, fits, z)
  ]
]

unfoldable pub index_byte : Bytes → ℕ → Option ℕ
index_byte [] c = none
index_byte (x ∷ s) c =
    let later = index_byte s c in
    if x == c then some 0 else elim later [ none ↦ none | some n ↦ some (suc n) ]

unfoldable pub contains : Bytes → Bytes → Bool
unfolding index
contains s p = is_some (index s p)

-- Membership of a byte.
unfoldable pub has_byte : ℕ → Bytes → Bool
has_byte c [] = false
has_byte c (x ∷ s) = x == c || has_byte c s

-- `chars` is ASCII.
unfoldable pub contains_any : Bytes → Bytes → Bool
unfolding has_byte
contains_any [] chars = false
contains_any (x ∷ s) chars = has_byte x chars || contains_any s chars

-- `strings.ToLower`, as far as a comparison with an ASCII text can tell: besides A-Z two
-- characters have an ASCII lower case, the dotted capital I (U+0130) and the Kelvin sign. Other
-- characters are left as they are, and stay outside ASCII in Go too.
lower_byte : ℕ → ℕ
lower_byte c = if leb b'A' c && leb c b'Z' then c + 32 else c

unfoldable pub to_lower : Bytes → Bytes
unfolding lower_byte
to_lower [] = []
to_lower (a ∷ b ∷ c ∷ s) =
    let plain = to_lower (b ∷ c ∷ s) in
    let dotted = to_lower (c ∷ s) in
    let kelvin = to_lower s in
    if a == 0xC4 && b == 0xB0
    then b'i' ∷ dotted
    else if a == 0xE2 && b == 0x84 && c == 0xAA
    then b'k' ∷ kelvin
    else lower_byte a ∷ plain
to_lower (a ∷ b ∷ []) =
    let plain = to_lower (b ∷ []) in
    if a == 0xC4 && b == 0xB0 then b'i' ∷ [] else lower_byte a ∷ plain
to_lower (a ∷ []) = lower_byte a ∷ []

pub has_prefix_append : (p s : Bytes) → has_prefix (p ++ s) p ≡ true
unfolding has_prefix
has_prefix_append [] s = refl
has_prefix_append (x ∷ p) s = ground (arith, has_prefix_append p s)

pub has_byte-append : (c : ℕ) (s t : Bytes) → has_byte c (s ++ t) ≡ (has_byte c s || has_byte c t)
unfolding has_byte
has_byte-append c [] t = refl
has_byte-append c (x ∷ s) t = ground (arith, has_byte-append c s t)

-- The first occurrence of a byte stands behind the bytes that differ from it.
pub index_byte-append :
    (c : ℕ) (s t : Bytes) → has_byte c s ≡ false → index_byte (s ++ c ∷ t) c ≡ some (length s)
unfolding index_byte has_byte
index_byte-append c [] t h = ground arith
index_byte-append c (x ∷ s) t h = ground (arith, index_byte-append c s t)
