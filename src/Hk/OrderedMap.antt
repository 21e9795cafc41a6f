-- ===== src/Hk/OrderedMap.antt =====
-- internal/hk/orderedmap.go: a map that remembers the order of insertion. The Go `map` is a
-- function into Option; MustGet, which returns an error of the package, is in Hk/Value.
pub mod Laws
use hacker_os_builder.Prelude.{
  ℕ, Bool, List, [], ◌∷◌, ◌++◌, Option, none, some, if◌then◌else◌, Bytes, equal, length, is_some,
}

pub record OrderedMap {ℓ} (V : Type ℓ) : Type ℓ where
  pub keys : List Bytes
  pub values : Bytes → Option V

module _ {ℓ} {V : Type ℓ} where
  unfoldable pub get : OrderedMap V → Bytes → Option V
  get m key = m.values key

  unfoldable pub has : OrderedMap V → Bytes → Bool
  has m key = is_some (m.values key)

  unfoldable pub len : OrderedMap V → ℕ
  len m = length m.keys

  unfoldable pub set : OrderedMap V → Bytes → V → OrderedMap V
  unfolding equal
  set m key val = record {
    keys = if is_some (m.values key) then m.keys else m.keys ++ key ∷ [];
    values = λ k. if equal key k then some val else m.values k;
  }

unfoldable pub new_ordered_map {ℓ} : {V : Type ℓ} → OrderedMap V
new_ordered_map = record { keys = []; values = λ k. none }
