-- ===== src/Prelude/Equality.antt =====
-- Go strings as sequences of bytes, and their equality test.
use Prim.Native.Char.{code}
use Prim.Native.Nat.{ℕ}
use Prim.Native.String.{String}
use mathlib.Core.Bool.{Bool, true, false, not, ◌&&◌, ◌||◌}
use mathlib.Core.List.{List, [], ◌∷◌, ◌++◌}
use mathlib.Core.Logic.{◌↔◌}
use mathlib.Core.Path.{◌≡◌, refl}
use native.Mathlib.Omega.{arith}
use hacker_os_builder.Prelude.Tests.{◌==◌}

abbrev pub Bytes : Type 0
Bytes = List ℕ

-- The bytes of a literal, which is ASCII wherever this is used.
abbrev pub codes : String → Bytes
codes String.[] = []
codes (String.◌∷◌ c s) = code c ∷ codes s

-- The lines of a text, each with its newline.
abbrev pub text_lines : List String → Bytes
text_lines [] = []
text_lines (line ∷ lines) = codes line ++ b'\n' ∷ text_lines lines

-- `a == b` on Go strings.
unfoldable pub equal : Bytes → Bytes → Bool
equal [] s = elim s [ [] ↦ true | d ∷ t ↦ false ]
equal (c ∷ r) s = elim s [ [] ↦ false | d ∷ t ↦ c == d && equal r t ]

pub equal_iff : (r s : Bytes) → (equal r s ≡ true) ↔ (r ≡ s)
unfolding equal
equal_iff [] [] = ground arith
equal_iff [] (d ∷ t) = ground arith
equal_iff (c ∷ r) [] = ground arith
equal_iff (c ∷ r) (d ∷ t) = ground (arith, equal_iff r t)

pub equal_refl : (a : Bytes) → equal a a ≡ true
equal_refl a = (equal_iff a a).1 refl

-- Membership in a list of texts.
unfoldable pub mem : Bytes → List Bytes → Bool
unfolding equal
mem k [] = false
mem k (j ∷ ks) = equal j k || mem k ks

pub mem-append : (k : Bytes) (xs ys : List Bytes) → mem k (xs ++ ys) ≡ (mem k xs || mem k ys)
unfolding mem
mem-append k [] ys = refl
mem-append k (j ∷ xs) ys = ground (arith, mem-append k xs ys)

unfoldable pub distinct : List Bytes → Bool
unfolding mem
distinct [] = true
distinct (k ∷ ks) = not (mem k ks) && distinct ks

pub distinct-concat :
    (k : Bytes) (ks : List Bytes)
    → distinct ks ≡ true
    → mem k ks ≡ false
    → distinct (ks ++ k ∷ []) ≡ true
unfolding distinct mem
distinct-concat k [] h n = refl
distinct-concat k (i ∷ ks) h n =
    ground (arith, mem-append i ks (k ∷ []), distinct-concat k ks, equal_iff k i, equal_iff i k)
