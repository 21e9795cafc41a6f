-- ===== src/Config/Cases.antt =====
-- The outcomes of a Loading, and of looking up a section.
use hacker_os_builder.Prelude.{ℕ, Bytes, ◌≡◌, ◌⊎◌, refl, Option-cases, inl, inr}
use hacker_os_builder.Hk.Errors.{Error, missing_field, ok, err}
use hacker_os_builder.Hk.Value.{HkValue, string, map, as_map, must_get}
use hacker_os_builder.Hk.Store.{HkConfig}
use hacker_os_builder.Hk.Config.{section}
use hacker_os_builder.Config.{Loading, loaded, refused, crashed, ◌>>-◌}

-- No crash, and a value that is returned has the property.
abbrev pub Gives {ℓ} : {V : Type ℓ} → (V → Type 0) → Loading V → Type 0
Gives P (loaded v) = P v
Gives P (refused e) = Unit
Gives P crashed = ⊥

pub bind-Gives {ℓ κ} :
    {V : Type ℓ} {W : Type κ} (P : V → Type 0) (Q : W → Type 0) (r : Loading V) (f : V → Loading W)
    → Gives P r
    → ((v : V) → P v → Gives Q (f v))
    → Gives Q (r >>- f)
bind-Gives P Q (loaded v) f h k = k v h
bind-Gives P Q (refused e) f h k = tt
bind-Gives P Q crashed f h k = absurd h

as_map-cases : (v : HkValue) → ((m : ℕ) × (as_map v ≡ ok m)) ⊎ ((e : Error) × (as_map v ≡ err e))
unfolding as_map
as_map-cases (map m) = inl (m, refl)
as_map-cases (string s) = inr (_, refl)
as_map-cases _ = inr (_, refl)

pub section-cases :
    (c : HkConfig) (name : Bytes)
    → ((m : ℕ) × (section c name ≡ ok m)) ⊎ ((e : Error) × (section c name ≡ err e))
unfolding section must_get
section-cases c name = elim (Option-cases ((c.store.cell c.sections).values name)) [
  | inl absent ↦ inr (missing_field name, rw (absent, must_get) refl)
  | inr (v, there) ↦ elim (as_map-cases v) [
    | inl (m, read) ↦ inl (m, rw (there, must_get) read)
    | inr (e, other) ↦ inr (e, rw (there, must_get) other)
  ]
]
