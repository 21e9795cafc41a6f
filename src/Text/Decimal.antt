-- ===== src/Text/Decimal.antt =====
-- `%d` of an integer.
use hacker_os_builder.Prelude.{
  ℕ, zero, suc, ◌+◌, ◌/◌, ◌%◌, [], ◌∷◌, ◌≡◌, refl, ◌==◌, if◌then◌else◌, Bytes, codes, ◌<◌, ◌⊎◌,
  false, arith,
}
use hacker_os_builder.Text.Search.{has_byte}

-- `negsuc n` is -(n + 1).
pub data ℤ : Type 0 where
  pos : ℕ → ℤ
  negsuc : ℕ → ℤ

-- The digits of `n` before `acc`. There are at most as many divisions by ten as `n` counts.
unfoldable pub digits_onto : ℕ → ℕ → Bytes → Bytes
digits_onto zero n acc = acc
digits_onto (suc fuel) n acc =
    let acc' = (b'0' + n % 10) ∷ acc in
    let more = digits_onto fuel (n / 10) acc' in if n / 10 == 0 then acc' else more

unfoldable pub print_ℕ : ℕ → Bytes
unfolding digits_onto
print_ℕ n = digits_onto (suc n) n []

unfoldable pub print_ℤ : ℤ → Bytes
unfolding print_ℕ
print_ℤ (pos n) = print_ℕ n
print_ℤ (negsuc n) = b'-' ∷ print_ℕ (suc n)

print_ℤ_runs : print_ℤ (negsuc 1203) ≡ codes "-1204"
unfolding print_ℤ
print_ℤ_runs = refl

-- A byte that is no digit does not stand in a printed number.
has_byte-digits_onto :
    (c fuel n : ℕ) (acc : Bytes)
    → (c < b'0') ⊎ (b'9' < c)
    → has_byte c acc ≡ false
    → has_byte c (digits_onto fuel n acc) ≡ false
unfolding has_byte digits_onto
has_byte-digits_onto c zero n acc h k = k
has_byte-digits_onto c (suc fuel) n acc h k =
    let acc' = (b'0' + n % 10) ∷ acc in
    let kept : has_byte c acc' ≡ false = ground arith in
    ground (arith, kept, has_byte-digits_onto c fuel (n / 10) acc' h kept)

pub has_byte-print_ℕ : (c n : ℕ) → (c < b'0') ⊎ (b'9' < c) → has_byte c (print_ℕ n) ≡ false
unfolding print_ℕ
has_byte-print_ℕ c n h = has_byte-digits_onto c (suc n) n [] h (unfold has_byte in refl)
