-- ===== src/System/Parts.antt =====
-- Lists of calls that grow, and first parts of them.
use hacker_os_builder.Prelude.{
  List, [], ◌∷◌, ◌++◌, ◌≡◌, refl, sym, ap, ◌∙◌, ◌⊎◌, inl, inr, append_assoc, append-nil, subst,
}
use hacker_os_builder.System.{Action}

abbrev pub concat_map {ℓ} : {X : Type ℓ} → (X → List Action) → List X → List Action
concat_map f [] = []
concat_map f (x ∷ xs) = f x ++ concat_map f xs

-- Nothing but the first list, or the second behind it.
abbrev pub Grown : List Action → List Action → List Action → List Action → Type 0
Grown s must may t = (t ≡ s ++ must) ⊎ (t ≡ (s ++ must) ++ may)

-- A first part of the list, behind what was there.
pub record IsPart (s whole t : List Action) : Type 0 where
  pub taken : List Action
  pub left : List Action
  pub grown : t ≡ s ++ taken
  pub whole_is : taken ++ left ≡ whole

pub IsPart-whole :
    (s must may : List Action) (t : List Action) → Grown s must may t → IsPart s (must ++ may) t
IsPart-whole s must may t (inl e) = record { taken = must; left = may; grown = e; whole_is = refl }
IsPart-whole s must may t (inr e) = record {
  taken = must ++ may;
  left = [];
  grown = e ∙ append_assoc s must may;
  whole_is = append-nil _;
}

IsPart-more : (s whole more t : List Action) → IsPart s whole t → IsPart s (whole ++ more) t
IsPart-more s whole more t p = record {
  taken = p.taken;
  left = p.left ++ more;
  grown = p.grown;
  whole_is = sym (append_assoc p.taken p.left more) ∙ ap (λ xs. xs ++ more) p.whole_is;
}

IsPart-behind : (s xs whole t : List Action) → IsPart (s ++ xs) whole t → IsPart s (xs ++ whole) t
IsPart-behind s xs whole t p = record {
  taken = xs ++ p.taken;
  left = p.left;
  grown = p.grown ∙ append_assoc s xs p.taken;
  whole_is = append_assoc xs p.taken p.left ∙ ap (◌++◌ xs) p.whole_is;
}

pub IsPart-none : (s whole : List Action) → IsPart s whole s
IsPart-none s whole = record {
  taken = [];
  left = whole;
  grown = sym (append-nil s);
  whole_is = refl;
}

front_nil : (xs ys : List Action) → xs ++ ys ≡ [] → xs ≡ []
front_nil [] ys e = refl
front_nil (x ∷ xs) ys e = cc

pub part_nil : (t u : List Action) → IsPart t [] u → u ≡ t
part_nil t u p = p.grown ∙ ap (◌++◌ t) (front_nil p.taken p.left p.whole_is) ∙ append-nil t

front_single : (xs ys : List Action) (a : Action) → xs ++ ys ≡ a ∷ [] → (xs ≡ []) ⊎ (xs ≡ a ∷ [])
front_single [] ys a e = inl refl
front_single (x ∷ []) ys a e = inr cc
front_single (x ∷ y ∷ xs) ys a e = cc

pub part_single :
    (s : List Action) (a : Action) (t : List Action) → IsPart s (a ∷ []) t → Grown s [] (a ∷ []) t
part_single s a t p = elim (front_single p.taken p.left a p.whole_is) [
  | inl e ↦ inl (p.grown ∙ ap (◌++◌ s) e)
  | inr e ↦ inr (p.grown ∙ ap (◌++◌ s) e ∙ sym (ap (λ z. z ++ a ∷ []) (append-nil s)))
]

pub Grown-exactly : (s xs t : List Action) → Grown s xs [] t → t ≡ s ++ xs
Grown-exactly s xs t (inl e) = e
Grown-exactly s xs t (inr e) = e ∙ append-nil (s ++ xs)

pub Grown-behind :
    (s xs ys may t : List Action) → Grown (s ++ xs) ys may t → Grown s (xs ++ ys) may t
Grown-behind s xs ys may t (inl e) = inl (e ∙ append_assoc s xs ys)
Grown-behind s xs ys may t (inr e) = inr (e ∙ ap (λ z. z ++ may) (append_assoc s xs ys))

pub IsPart-assoc :
    (s xs ys may t : List Action) → IsPart (s ++ xs) (ys ++ may) t → IsPart s ((xs ++ ys) ++ may) t
IsPart-assoc s xs ys may t p =
    subst (λ whole. IsPart s whole t) (sym (append_assoc xs ys may))
      (IsPart-behind s xs (ys ++ may) t p)

pub IsPart-longer :
    (s xs ys may t : List Action) → IsPart s (xs ++ []) t → IsPart s ((xs ++ ys) ++ may) t
IsPart-longer s xs ys may t p =
    IsPart-more s (xs ++ ys) may t
      (IsPart-more s xs ys t (subst (λ whole. IsPart s whole t) (append-nil xs) p))
