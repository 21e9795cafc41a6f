-- ===== src/Hk/Interpolate/Terminates.antt =====
-- The recursion of the resolver of interpolations along chains of references.
use hacker_os_builder.Prelude.{
  ℕ, zero, suc, ◌+◌, ◌-◌, ◌≤◌, ◌<◌, true, false, ◌||◌, some, List, [], ◌∷◌, if◌then◌else◌, Bytes,
  equal, equal_iff, equal_refl, mem, length, length-drop, take, drop, All, All-map, ◌≡◌, refl,
  arith, Bool-cases, Option-cases, inl, inr,
}
use hacker_os_builder.Text.Search.{contains, has_prefix, index}
use hacker_os_builder.Hk.Errors.{
  parse_error, type_mismatch, invalid_reference, cyclic_reference, Result, ok, err, panic, ◌>>=◌,
}
use hacker_os_builder.Hk.Value.{Floats, HkValue, string, number, bool, as_string}
use hacker_os_builder.Hk.Store.{HkConfig}
use hacker_os_builder.Hk.Config.{get_path}
use hacker_os_builder.Hk.Interpolate.{
  opening, closing, text_loop, Surroundings, resolve_value, resolve_found, resolve_ref,
  resolve_string, env_prefix, refs_from, refs_of,
}

-- A value with the property, or one of the errors that the resolver reports.
abbrev pub Outcome {ℓ} : {V : Type ℓ} → (V → Type 0) → Result V → Type 0
Outcome P (ok v) = P v
Outcome P (err (parse_error e)) = Unit
Outcome P (err (type_mismatch e f)) = Unit
Outcome P (err (invalid_reference p)) = Unit
Outcome P (err (cyclic_reference p)) = Unit
Outcome P _ = ⊥

pub bind-Outcome {ℓ κ} :
    {V : Type ℓ} {W : Type κ} (P : V → Type 0) (Q : W → Type 0) (r : Result V) (next : V → Result W)
    → Outcome P r
    → ((v : V) → P v → Outcome Q (next v))
    → Outcome Q (r >>= next)
bind-Outcome P Q (ok v) next h k = k v h
bind-Outcome P Q (err (parse_error e)) next h k = tt
bind-Outcome P Q (err (type_mismatch e f)) next h k = tt
bind-Outcome P Q (err (invalid_reference p)) next h k = tt
bind-Outcome P Q (err (cyclic_reference p)) next h k = tt
bind-Outcome P Q (err _) next h k = absurd h
bind-Outcome P Q panic next h k = absurd h

abbrev pub Settled {ℓ} : {V : Type ℓ} → Result V → Type 0
Settled = Outcome (λ v. Unit)

pub bind-Settled {ℓ κ} :
    {V : Type ℓ} {W : Type κ} (Q : W → Type 0) (r : Result V) (next : V → Result W)
    → Settled r
    → ((v : V) → Outcome Q (next v))
    → Outcome Q (r >>= next)
bind-Settled Q r next h k = bind-Outcome (λ v. Unit) Q r next h (λ v u. k v)

-- What is found starts inside the text.
index_lt : (s : Bytes) (c : ℕ) (p : Bytes) (n : ℕ) → index s (c ∷ p) ≡ some n → n < length s
unfolding index has_prefix
index_lt [] c p n h = cc
index_lt (x ∷ s) c p n h = elim (Bool-cases (has_prefix (x ∷ s) (c ∷ p))) [
  | inl here ↦ ground arith
  | inr later ↦ ground (arith, index_lt s c p (n - 1))
]

refs_from_step :
    (fuel : ℕ) (rest : Bytes) (begin end : ℕ)
    → index rest opening ≡ some begin
    → index (drop begin rest) closing ≡ some end
    → refs_from (suc fuel) rest
      ≡ drop 2 (take end (drop begin rest)) ∷ refs_from fuel (drop (end + 1) (drop begin rest))
unfolding refs_from
refs_from_step fuel rest begin end h k = rw (h, refs_from) (rw (k, refs_from) refl)

text_loop-Settled :
    (resolve : Bytes → Result Bytes) (whole : Bytes) (fuel : ℕ) (rest : Bytes)
    → length rest < fuel
    → All (λ ref. Settled (resolve ref)) (refs_from fuel rest)
    → Settled (text_loop resolve whole fuel rest)
unfolding text_loop refs_from
text_loop-Settled resolve whole zero rest lt h = absurd (omega arith)
text_loop-Settled resolve whole (suc fuel) rest lt h = elim (Option-cases (index rest opening)) [
  | inl plain ↦ rw (plain, text_loop) tt
  | inr (begin, found) ↦
      let from = drop begin rest in
      elim (Option-cases (index from closing)) [
        | inl open_end ↦ rw (found, text_loop) (rw (open_end, text_loop) tt)
        | inr (end, closed) ↦
            let step = refs_from_step fuel rest begin end found closed in
            let hs = rw step at h in
            let shorter : length (drop (end + 1) from) < fuel = omega (
              arith,
              index_lt from b'}' [] end closed,
              length-drop (end + 1) from,
              length-drop begin rest,
            ) in
            rw (found, text_loop)
              (rw (closed, text_loop)
                (bind-Settled (λ v. Unit) (resolve (drop 2 (take end from))) _ hs.0
                  λ resolved.
                    bind-Settled (λ v. Unit) (text_loop resolve whole fuel (drop (end + 1) from)) _
                      (text_loop-Settled resolve whole fuel (drop (end + 1) from) shorter hs.1)
                      λ more. tt))
      ]
]

-- How many of the references in `us` are not being resolved.
unresolved : List Bytes → List Bytes → ℕ
unresolved resolving [] = 0
unresolved resolving (u ∷ us) =
    let more = unresolved resolving us in if mem u resolving then more else suc more

unresolved_cons :
    (ref : Bytes) (resolving us : List Bytes)
    → unresolved (ref ∷ resolving) us ≤ unresolved resolving us
unfolding unresolved mem
unresolved_cons ref resolving [] = omega arith
unresolved_cons ref resolving (u ∷ us) = ground (arith, unresolved_cons ref resolving us)

-- A reference that is entered leaves fewer.
unresolved_lt :
    (ref : Bytes) (resolving us : List Bytes)
    → mem ref us ≡ true
    → mem ref resolving ≡ false
    → unresolved (ref ∷ resolving) us < unresolved resolving us
unfolding unresolved mem
unresolved_lt ref resolving [] h k = cc
unresolved_lt ref resolving (u ∷ us) h k = ground (
  arith,
  unresolved_cons ref resolving us,
  unresolved_lt ref resolving us,
  equal_iff u ref,
  equal_refl ref,
)

unresolved_le : (resolving us : List Bytes) → unresolved resolving us ≤ length us
unfolding unresolved
unresolved_le resolving [] = omega arith
unresolved_le resolving (u ∷ us) = ground (arith, unresolved_le resolving us)

abbrev pub AllIn : List Bytes → List Bytes → Type 0
AllIn us = All (λ t. mem t us ≡ true)

-- A value whose references are known, or an error.
abbrev pub IsAnswer : List Bytes → Result HkValue → Type 0
IsAnswer us (ok (string t)) = AllIn us (refs_of t)
IsAnswer us panic = ⊥
IsAnswer us _ = Unit

as_string-Settled : (fl : Floats) (v : HkValue) → Settled (as_string fl v)
unfolding as_string
as_string-Settled fl (string s) = tt
as_string-Settled fl (number n) = tt
as_string-Settled fl (bool b) = tt
as_string-Settled fl _ = tt

resolve_found-Settled :
    (env : Surroundings) (us : List Bytes) (again : Bytes → Result Bytes) (ref : Bytes)
    (r : Result HkValue)
    → IsAnswer us r
    → ((t : Bytes) → AllIn us (refs_of t) → Settled (again t))
    → Settled (resolve_found env again ref r)
unfolding resolve_found resolve_value
resolve_found-Settled env us again ref (ok (string t)) h k =
    elim (Bool-cases (contains t opening)) [ inl more ↦ rw more (k t h) | inr last ↦ rw last tt ]
resolve_found-Settled env us again ref (ok v) h k = as_string-Settled env.floats v
resolve_found-Settled env us again ref (err e) h k = tt
resolve_found-Settled env us again ref panic h k = absurd h

module _ (env : Surroundings) (c : HkConfig) (us : List Bytes)
    (answers : (ref : Bytes) → IsAnswer us (get_path c ref)) where
  -- `text` need answer only where one more reference is being resolved.
  resolve_ref-Settled :
      (text : List Bytes → Bytes → Bytes → Result Bytes) (resolving : List Bytes) (self ref : Bytes)
      → (mem ref resolving ≡ false
          → (t : Bytes) → AllIn us (refs_of t)
          → Settled (text (ref ∷ resolving) ref t))
      → Settled (resolve_ref env text c resolving self ref)
  unfolding resolve_ref
  resolve_ref-Settled text resolving self ref k = elim (Bool-cases (has_prefix ref env_prefix)) [
    | inl variable ↦ rw variable tt
    | inr path ↦ rw path (elim (Bool-cases (mem ref resolving || equal ref self)) [
      | inl cycle ↦ rw cycle tt
      | inr new ↦ rw new (
          resolve_found-Settled env us (λ s. text (ref ∷ resolving) ref s) ref (get_path c ref)
            (answers ref) (k (ground (arith, new))))
    ])
  ]

  resolve_string-Settled :
      (fuel : ℕ) (resolving : List Bytes) (self s : Bytes)
      → AllIn us (refs_of s)
      → unresolved resolving us < fuel
      → Settled (resolve_string env fuel c resolving self s)
  unfolding resolve_string refs_of
  resolve_string-Settled zero resolving self s h lt = absurd (omega arith)
  resolve_string-Settled (suc fuel) resolving self s h lt =
      text_loop-Settled (resolve_ref env (resolve_string env fuel c) c resolving self) s
        (suc (length s)) s (omega arith)
        (All-map (λ t. mem t us ≡ true)
          (λ ref. Settled (resolve_ref env (resolve_string env fuel c) c resolving self ref))
          (λ ref known.
            resolve_ref-Settled (resolve_string env fuel c) resolving self ref λ new t h'.
              resolve_string-Settled fuel (ref ∷ resolving) ref t h'
                (omega (arith, unresolved_lt ref resolving us known new)))
          (refs_of s) h)

  -- As many references as there are bound the depth.
  pub resolve_string_total :
      (self s : Bytes)
      → AllIn us (refs_of s)
      → Settled (resolve_string env (suc (length us)) c [] self s)
  resolve_string_total self s h =
      resolve_string-Settled (suc (length us)) [] self s h (omega (arith, unresolved_le [] us))
