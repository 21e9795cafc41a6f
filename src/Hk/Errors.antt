-- ===== src/Hk/Errors.antt =====
-- internal/hk/errors.go: the errors of the package as values. A Message with its Hint is a
-- constructor of Reason. A panic is an index out of range, or a recursion that outlasts its fuel
-- (the stack overflow of a recursion without end).
use hacker_os_builder.Prelude.{ℕ, Bytes, ◌≡◌, refl}

pub data Reason : Type 0 where
  unexpected_line : Bytes → Reason
  section_not_closed empty_section_name key_before_section : Reason
  missing_arrow missing_key missing_key_name bad_value : Reason
  too_deep : ℕ → Reason
  unclosed_interpolation : Bytes → Reason

pub record ParseError : Type 0 where
  pub line : ℕ
  pub column : ℕ
  pub reason : Reason
  pub source_line : Bytes

pub data Error : Type 0 where
  parse_error : ParseError → Error
  type_mismatch : Bytes → Bytes → Error
  invalid_reference : Bytes → Error
  cyclic_reference : Bytes → Error
  key_conflict : Bytes → Error
  missing_field : Bytes → Error

pub data Result {ℓ} (V : Type ℓ) : Type ℓ where
  panic : Result V
  err : Error → Result V
  ok : V → Result V

infixl 5 ◌>>=◌
abbrev pub ◌>>=◌ {ℓ κ} : {V : Type ℓ} {W : Type κ} → Result V → (V → Result W) → Result W
panic >>= next = panic
err e >>= next = err e
ok v >>= next = next v

-- Where both steps succeed, the first one has a value.
pub >>=-succeeds {ℓ κ} :
    {V : Type ℓ} {W : Type κ} (first : Result V) (next : V → Result W) {w : W}
    → (first >>= next) ≡ ok w
    → (v : V) × (first ≡ ok v) × (next v ≡ ok w)
>>=-succeeds panic next e = cc
>>=-succeeds (err x) next e = cc
>>=-succeeds (ok v) next e = (v, refl, e)

pub ok-injective {ℓ} : {A : Type ℓ} {a b : A} → ok a ≡ ok b → a ≡ b
ok-injective h = cc
