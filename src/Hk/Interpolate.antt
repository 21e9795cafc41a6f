-- ===== src/Hk/Interpolate.antt =====
-- internal/hk/interpolate.go: the references ${...} in the texts of a configuration.
pub mod Terminates
pub mod Answers
pub mod Settled
pub mod Laws
use hacker_os_builder.Prelude.{
  ℕ, zero, suc, ◌+◌, Bool, true, false, ◌&&◌, ◌||◌, Option, none, some, List, [], ◌∷◌, ◌++◌,
  if◌then◌else◌, Bytes, codes, equal, mem, length, take, drop,
}
use hacker_os_builder.Text.Search.{contains, has_prefix, index, trim_prefix}
use hacker_os_builder.Text.Decimal.{print_ℕ}
use hacker_os_builder.Hk.Errors.{
  Reason, unclosed_interpolation, Error, parse_error, invalid_reference, cyclic_reference, Result,
  ok, err, panic, ◌>>=◌,
}
use hacker_os_builder.Hk.OrderedMap.{OrderedMap, get}
use hacker_os_builder.Hk.Value.{
  Floats, HkValue, string, number, bool, array, map, Items, nil, cons, as_string,
}
use hacker_os_builder.Hk.Store.{Store, set_at, HkConfig}
use hacker_os_builder.Hk.Config.{get_path}
use hacker_os_builder.Hk.Serialize.{or_zero}

-- `"${"`
abbrev pub opening : Bytes
opening = b'$' ∷ b'{' ∷ []

abbrev pub closing : Bytes
closing = b'}' ∷ []

abbrev pub unclosed {ℓ} : {V : Type ℓ} → Bytes → Result V
unclosed whole = err (
    parse_error
      (record { line = 0; column = 0; reason = unclosed_interpolation whole; source_line = [] }))

-- The loop of resolveString over what is left of the text, `s[i:]`; `resolve` is resolveRef.
unfoldable pub text_loop : (Bytes → Result Bytes) → Bytes → ℕ → Bytes → Result Bytes
text_loop resolve whole zero rest = panic
text_loop resolve whole (suc fuel) rest = elim (index rest opening) [
  | none ↦ ok rest
  | some begin ↦
      let from = drop begin rest in
      elim (index from closing) [
        | none ↦ unclosed whole
        | some end ↦ resolve (drop 2 (take end from)) >>= λ resolved.
            (text_loop resolve whole fuel (drop (end + 1) from) >>= λ more.
            ok (take begin rest ++ (resolved ++ more)))
      ]
]

-- What the resolver reads of its surroundings: float64 and the environment, in which a variable
-- that is not set is empty.
pub record Surroundings : Type 0 where
  pub floats : Floats
  pub getenv : Bytes → Bytes

-- The end of resolveRef; `again` is resolveString with the reference added to `resolving`.
unfoldable pub resolve_value : Surroundings → (Bytes → Result Bytes) → HkValue → Result Bytes
resolve_value env again (string s) = if contains s opening then again s else ok s
resolve_value env again v = as_string env.floats v

unfoldable pub resolve_found :
    Surroundings → (Bytes → Result Bytes) → Bytes → Result HkValue → Result Bytes
resolve_found env again ref (ok v) = resolve_value env again v
resolve_found env again ref (err e) = err (invalid_reference ref)
resolve_found env again ref panic = panic

abbrev pub env_prefix : Bytes
env_prefix = b'e' ∷ b'n' ∷ b'v' ∷ b':' ∷ []

-- The set `resolving` is a list: `r.resolving[ref] = true` puts a reference in front for the time
-- of the recursive call, and `delete` takes it away behind it.
unfoldable pub resolve_ref :
    Surroundings
    → (List Bytes → Bytes → Bytes → Result Bytes)
    → HkConfig
    → List Bytes
    → Bytes
    → Bytes
    → Result Bytes
resolve_ref env text c resolving self ref =
    if has_prefix ref env_prefix
    then ok (env.getenv (trim_prefix ref env_prefix))
    else if mem ref resolving || equal ref self
    then err (cyclic_reference ref)
    else resolve_found env (λ s. text (ref ∷ resolving) ref s) ref (get_path c ref)

-- The fuel bounds how deep the references lead.
unfoldable pub resolve_string :
    Surroundings → ℕ → HkConfig → List Bytes → Bytes → Bytes → Result Bytes
resolve_string env zero c resolving self s = panic
resolve_string env (suc fuel) c resolving self s =
    text_loop (resolve_ref env (resolve_string env fuel c) c resolving self) s (suc (length s)) s

-- The elements of an array from the position `i` on.
unfoldable pub resolve_items : (Bytes → Bytes → Result Bytes) → Bytes → ℕ → Items → Result Items
resolve_items resolve path i nil = ok nil
resolve_items resolve path i (cons (string s) xs) =
    let later = resolve_items resolve path (i + 1) xs in
    resolve (path ++ (b'[' ∷ (print_ℕ i ++ b']' ∷ []))) s >>= λ resolved.
    (later >>= λ ys. ok (cons (string resolved) ys))
resolve_items resolve path i (cons x xs) =
    resolve_items resolve path (i + 1) xs >>= λ ys. ok (cons x ys)

-- The switch over one value of a map; `text` is resolveString and `below` resolveMap.
unfoldable pub resolve_entry :
    (Bytes → Bytes → Result Bytes)
    → (Store → ℕ → Bytes → Result Store)
    → Store
    → ℕ
    → Bytes
    → Bytes
    → HkValue
    → Result Store
resolve_entry text below s m key path (string t) =
    text path t >>= λ resolved. ok (set_at s m key (string resolved))
resolve_entry text below s m key path (array xs) =
    resolve_items text path 0 xs >>= λ ys. ok (set_at s m key (array ys))
resolve_entry text below s m key path (map a) = below s a path
resolve_entry text below s m key path v = ok s

abbrev pub full_path : Bytes → Bytes → Bytes
full_path [] key = key
full_path (c ∷ prefix) key = (c ∷ prefix) ++ (b'.' ∷ key)

-- The loop over the keys, which Set does not change as they are all there.
unfoldable pub resolve_keys :
    (Store → Bytes → Bytes → Result Bytes)
    → (Store → ℕ → Bytes → Result Store)
    → Store
    → ℕ
    → Bytes
    → List Bytes
    → Result Store
resolve_keys text below s m prefix [] = ok s
resolve_keys text below s m prefix (key ∷ keys) =
    resolve_entry (text s) below s m key (full_path prefix key) (or_zero (get (s.cell m) key))
    >>= λ t. resolve_keys text below t m prefix keys

unfoldable pub resolve_map :
    (Store → Bytes → Bytes → Result Bytes) → ℕ → Store → ℕ → Bytes → Result Store
resolve_map text zero s m prefix = panic
resolve_map text (suc fuel) s m prefix =
    resolve_keys text (resolve_map text fuel) s m prefix (s.cell m).keys

-- The references in a text, in order, as the loop of resolveString meets them.
unfoldable pub refs_from : ℕ → Bytes → List Bytes
refs_from zero rest = []
refs_from (suc fuel) rest = elim (index rest opening) [
  | none ↦ []
  | some begin ↦
      let from = drop begin rest in
      elim (index from closing) [
        | none ↦ []
        | some end ↦ drop 2 (take end from) ∷ refs_from fuel (drop (end + 1) from)
      ]
]

unfoldable pub refs_of : Bytes → List Bytes
unfolding refs_from
refs_of s = refs_from (suc (length s)) s

unfoldable pub refs_of_all : List Bytes → List Bytes
refs_of_all [] = []
refs_of_all (s ∷ ts) = refs_of s ++ refs_of_all ts

unfoldable mutual
  pub texts_of : HkValue → List Bytes
  texts_of (string s) = s ∷ []
  texts_of (array xs) = texts_of_items xs
  texts_of v = []

  pub texts_of_items : Items → List Bytes
  texts_of_items nil = []
  texts_of_items (cons x xs) = texts_of x ++ texts_of_items xs

unfoldable pub texts_of_keys : OrderedMap HkValue → List Bytes → List Bytes
texts_of_keys m [] = []
texts_of_keys m (key ∷ keys) = texts_of (or_zero (get m key)) ++ texts_of_keys m keys

unfoldable pub texts_below : Store → ℕ → List Bytes
texts_below s zero = []
texts_below s (suc a) = texts_of_keys (s.cell a) (s.cell a).keys ++ texts_below s a

-- The references that a text can lead to.
unfoldable pub reachable : Store → Bytes → List Bytes
reachable store s = refs_of s ++ refs_of_all (texts_below store store.next)

-- A chain of references is no longer than the number of references there are.
unfoldable pub resolve_text : Surroundings → HkConfig → Bytes → Bytes → Result Bytes
resolve_text env c path s = resolve_string env (suc (length (reachable c.store s))) c [] path s

unfoldable pub resolve_interpolations : Surroundings → HkConfig → Result HkConfig
resolve_interpolations env c =
    resolve_map (λ s. resolve_text env (record { store = s; sections = c.sections })) c.store.next
      c.store c.sections []
    >>= λ s. ok (record { store = s; sections = c.sections })
