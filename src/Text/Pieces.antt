-- ===== src/Text/Pieces.antt =====
-- `strings.Split` at one byte, `strings.Join` and `strings.Repeat`.
use hacker_os_builder.Prelude.{
  ℕ, zero, suc, false, List, [], ◌∷◌, ◌++◌, ◌≡◌, refl, ap, ◌∙◌, arith, ◌==◌, if◌then◌else◌, Bytes,
}
use hacker_os_builder.Text.Search.{has_byte}

abbrev pub onto_head : ℕ → List Bytes → List Bytes
onto_head x [] = (x ∷ []) ∷ []
onto_head x (p ∷ ps) = (x ∷ p) ∷ ps

unfoldable pub split : ℕ → Bytes → List Bytes
split c [] = [] ∷ []
split c (x ∷ s) = let rest = split c s in if x == c then [] ∷ rest else onto_head x rest

unfoldable pub join : Bytes → List Bytes → Bytes
join sep [] = []
join sep (p ∷ []) = p
join sep (p ∷ q ∷ ps) = p ++ (sep ++ join sep (q ∷ ps))

unfoldable pub repeat : Bytes → ℕ → Bytes
repeat s zero = []
repeat s (suc n) = s ++ repeat s n

-- The last piece, with no separator in it.
pub split_end : (c : ℕ) (s : Bytes) → has_byte c s ≡ false → split c s ≡ s ∷ []
unfolding split has_byte
split_end c [] h = refl
split_end c (x ∷ s) h = ground (arith, split_end c s)

-- A piece and what stands behind its separator.
pub split_piece :
    (c : ℕ) (p s : Bytes) → has_byte c p ≡ false → split c (p ++ c ∷ s) ≡ p ∷ split c s
unfolding split has_byte
split_piece c [] s h = ground arith
split_piece c (x ∷ p) s h = ground (arith, split_piece c p s)

abbrev pub AllFree : ℕ → List Bytes → Type 0
AllFree c [] = Unit
AllFree c (p ∷ ps) = (has_byte c p ≡ false) × AllFree c ps

-- Splitting at a byte undoes joining with it, where no piece holds the byte.
pub split-join :
    (c : ℕ) (p : Bytes) (ps : List Bytes)
    → AllFree c (p ∷ ps)
    → split c (join (c ∷ []) (p ∷ ps)) ≡ p ∷ ps
unfolding join
split-join c p [] h = split_end c p h.0
split-join c p (q ∷ ps) h = split_piece c p _ h.0 ∙ ap (◌∷◌ p) (split-join c q ps h.1)
