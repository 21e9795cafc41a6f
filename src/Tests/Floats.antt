-- ===== src/Tests/Floats.antt =====
-- A stand-in for float64: the numbers are the decimal naturals below 2^63.
use hacker_os_builder.Prelude.{
  ℕ, ◌+◌, ◌-◌, ◌*◌, ◌||◌, Option, none, some, [], ◌∷◌, ◌==◌, ltb, if◌then◌else◌, Bytes, codes, ◌≡◌,
  refl,
}
use hacker_os_builder.Text.Decimal.{ℤ, pos, negsuc, print_ℕ, print_ℤ}
use hacker_os_builder.Hk.Value.{Floats, format_number}

read_digits : ℕ → Bytes → Option ℕ
read_digits n [] = some n
read_digits n (c ∷ s) =
    let rest = read_digits (n * 10 + (c - b'0')) s in
    if ltb c b'0' || ltb b'9' c then none else rest

read_natural : Bytes → Option ℕ
read_natural [] = none
read_natural (c ∷ s) = read_digits 0 (c ∷ s)

natural_part : ℤ → ℕ
natural_part (pos n) = n
natural_part (negsuc n) = 0

unfoldable pub naturals : Floats
unfolding read_digits read_natural natural_part print_ℕ
naturals = record {
  parse_float = read_natural;
  int64 = pos;
  float64 = natural_part;
  float_eq = λ a b. a == b;
  sprintf_g = print_ℕ;
}

naturals_run : format_number naturals 42 ≡ codes "42"
unfolding naturals format_number print_ℤ
naturals_run = refl
