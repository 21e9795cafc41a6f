-- ===== src/Hk/Interpolate/Laws.antt =====
-- resolveString on texts with references.
use hacker_os_builder.Prelude.{
  ℕ, zero, suc, ◌+◌, ◌<◌, true, false, ◌||◌, none, some, List, [], ◌∷◌, ◌++◌, Bytes, equal,
  equal_iff, equal_refl, mem, length, take, drop, take-append, drop-append, drop_behind,
  length-append, ◌≡◌, refl, ◌≢◌, arith, ◌∙◌, ap,
}
use hacker_os_builder.Text.Search.{contains, has_byte, has_prefix, index}
use hacker_os_builder.Hk.Errors.{Result, ok, err, cyclic_reference, ◌>>=◌}
use hacker_os_builder.Hk.Value.{string}
use hacker_os_builder.Hk.Store.{HkConfig}
use hacker_os_builder.Hk.Config.{get_path}
use hacker_os_builder.Hk.Interpolate.{
  opening, closing, text_loop, Surroundings, resolve_value, resolve_found, resolve_ref,
  resolve_string, env_prefix,
}

-- The first occurrence stands behind bytes that differ from its first byte.
index-append :
    (c : ℕ) (p s t : Bytes)
    → has_byte c s ≡ false
    → has_prefix (c ∷ t) (c ∷ p) ≡ true
    → index (s ++ c ∷ t) (c ∷ p) ≡ some (length s)
unfolding index has_byte has_prefix
index-append c p [] t h k = ground arith
index-append c p (x ∷ s) t h k = ground (arith, index-append c p s t)

text_loop_plain :
    (resolve : Bytes → Result Bytes) (whole : Bytes) (fuel : ℕ) (rest : Bytes)
    → index rest opening ≡ none
    → 0 < fuel
    → text_loop resolve whole fuel rest ≡ ok rest
unfolding text_loop
text_loop_plain resolve whole zero rest h lt = absurd (omega arith)
text_loop_plain resolve whole (suc fuel) rest h lt = rw (h, text_loop) refl

text_loop_step :
    (resolve : Bytes → Result Bytes) (whole : Bytes) (fuel : ℕ) (rest : Bytes) (begin end : ℕ)
    → index rest opening ≡ some begin
    → index (drop begin rest) closing ≡ some end
    → text_loop resolve whole (suc fuel) rest ≡ (
        resolve (drop 2 (take end (drop begin rest))) >>= λ resolved.
        (text_loop resolve whole fuel (drop (end + 1) (drop begin rest)) >>= λ more.
        ok (take begin rest ++ (resolved ++ more))))
unfolding text_loop
text_loop_step resolve whole fuel rest begin end h k = rw (h, text_loop) (rw (k, text_loop) refl)

-- The same with the parts of the text named.
text_loop_cut :
    (resolve : Bytes → Result Bytes) (whole : Bytes) (fuel : ℕ) (rest from before ref after : Bytes)
    (begin end : ℕ)
    → index rest opening ≡ some begin
    → index from closing ≡ some end
    → drop begin rest ≡ from
    → take begin rest ≡ before
    → drop 2 (take end from) ≡ ref
    → drop (end + 1) from ≡ after
    → text_loop resolve whole (suc fuel) rest ≡ (
        resolve ref >>= λ resolved.
        (text_loop resolve whole fuel after >>= λ more. ok (before ++ (resolved ++ more))))
text_loop_cut resolve whole fuel rest from before ref after begin end h k from_at taken cut left =
    text_loop_step resolve whole fuel rest begin end h (rw from_at k)
    ∙ rw from_at (rw taken (rw cut (rw left refl)))

-- `"${" + ref + "}"`
abbrev pub reference : Bytes → Bytes
reference ref = b'$' ∷ b'{' ∷ (ref ++ b'}' ∷ [])

module _ (resolve : Bytes → Result Bytes) (whole : Bytes) (fuel : ℕ) (before ref after : Bytes)
    (plain : has_byte b'$' before ≡ false) (name : has_byte b'}' ref ≡ false) where
  text_loop-reference :
      text_loop resolve whole (suc fuel) (before ++ (b'$' ∷ b'{' ∷ (ref ++ b'}' ∷ after))) ≡ (
        resolve ref >>= λ resolved.
        (text_loop resolve whole fuel after >>= λ more. ok (before ++ (resolved ++ more))))
  unfolding has_byte has_prefix
  text_loop-reference =
      let from = b'$' ∷ b'{' ∷ (ref ++ b'}' ∷ after) in
      let from_at : drop (length before) (before ++ from) ≡ from = drop-append before from in
      let cut = b'$' ∷ b'{' ∷ ref in
      text_loop_cut resolve whole fuel (before ++ from) from before ref after (length before)
        (length cut)
        (index-append b'$' (b'{' ∷ []) before (b'{' ∷ (ref ++ b'}' ∷ after)) plain refl)
        (index-append b'}' [] cut after name refl) from_at (take-append before from)
        (ap (drop 2) (take-append cut (b'}' ∷ after))) (drop_behind cut b'}' after)

-- One reference between texts with no other is replaced by what it stands for, and the texts are
-- copied. The text before it holds no dollar sign, and the reference no closing brace.
pub resolve_string-reference :
    (env : Surroundings) (fuel : ℕ) (c : HkConfig) (resolving : List Bytes)
    (self before ref after : Bytes)
    → has_byte b'$' before ≡ false
    → has_byte b'}' ref ≡ false
    → index after opening ≡ none
    → resolve_string env
        (suc fuel)
        c
        resolving
        self
        (before ++ (b'$' ∷ b'{' ∷ (ref ++ b'}' ∷ after)))
      ≡ (resolve_ref env (resolve_string env fuel c) c resolving self ref >>= λ resolved.
          ok (before ++ (resolved ++ after)))
unfolding resolve_string
resolve_string-reference env fuel c resolving self before ref after plain name rest =
    let whole = before ++ (b'$' ∷ b'{' ∷ (ref ++ b'}' ∷ after)) in
    let resolve = resolve_ref env (resolve_string env fuel c) c resolving self in
    text_loop-reference resolve whole (length whole) before ref after plain name
    ∙ rw
        (text_loop_plain resolve whole (length whole) after rest
          (omega (arith, length-append before (b'$' ∷ b'{' ∷ (ref ++ b'}' ∷ after)))))
        refl

-- A text with no reference stays as it is.
pub resolve_string_plain :
    (env : Surroundings) (fuel : ℕ) (c : HkConfig) (resolving : List Bytes) (self s : Bytes)
    → index s opening ≡ none
    → resolve_string env (suc fuel) c resolving self s ≡ ok s
unfolding resolve_string
resolve_string_plain env fuel c resolving self s h =
    text_loop_plain _ s (suc (length s)) s h (omega arith)

-- A reference to a text with a reference leads on, if it is not being resolved.
resolve_ref_enter :
    (env : Surroundings) (text : List Bytes → Bytes → Bytes → Result Bytes) (c : HkConfig)
    (resolving : List Bytes) (self ref next : Bytes)
    → has_prefix ref env_prefix ≡ false
    → (mem ref resolving || equal ref self) ≡ false
    → get_path c ref ≡ ok (string (reference next))
    → resolve_ref env text c resolving self ref ≡ text (ref ∷ resolving) ref (reference next)
unfolding resolve_ref resolve_found resolve_value contains index has_prefix
resolve_ref_enter env text c resolving self ref next path new value =
    rw path (rw new (rw value refl))

resolve_ref_cycle :
    (env : Surroundings) (text : List Bytes → Bytes → Bytes → Result Bytes) (c : HkConfig)
    (resolving : List Bytes) (self ref : Bytes)
    → has_prefix ref env_prefix ≡ false
    → (mem ref resolving || equal ref self) ≡ true
    → resolve_ref env text c resolving self ref ≡ err (cyclic_reference ref)
unfolding resolve_ref
resolve_ref_cycle env text c resolving self ref path old = rw path (rw old refl)

-- The text that is one reference.
resolve_string_alone :
    (env : Surroundings) (fuel : ℕ) (c : HkConfig) (resolving : List Bytes) (self ref : Bytes)
    → has_byte b'}' ref ≡ false
    → resolve_string env (suc fuel) c resolving self (reference ref) ≡ (
        resolve_ref env (resolve_string env fuel c) c resolving self ref >>= λ resolved.
        ok (resolved ++ []))
unfolding has_byte index has_prefix
resolve_string_alone env fuel c resolving self ref name =
    resolve_string-reference env fuel c resolving self [] ref [] refl name refl

-- Two values that refer to each other are reported. The two references are no variables of the
-- environment, hold no closing brace, and differ.
pub resolve_string_cycle :
    (env : Surroundings) (fuel : ℕ) (c : HkConfig) (p q : Bytes)
    → has_byte b'}' p ≡ false
    → has_byte b'}' q ≡ false
    → has_prefix p env_prefix ≡ false
    → has_prefix q env_prefix ≡ false
    → p ≢ q
    → get_path c p ≡ ok (string (reference q))
    → get_path c q ≡ ok (string (reference p))
    → resolve_string env (suc (suc (suc fuel))) c [] p (reference q) ≡ err (cyclic_reference q)
unfolding mem
resolve_string_cycle env fuel c p q pb qb pe qe ne pv qv =
    let text = resolve_string env (suc (suc fuel)) c in
    let q_new : (mem q [] || equal q p) ≡ false = ground (arith, equal_iff q p) in
    let p_new : (mem p (q ∷ []) || equal p q) ≡ false =
      ground (arith, equal_iff q p, equal_iff p q) in
    let q_old : (mem q (p ∷ q ∷ []) || equal q p) ≡ true = ground (arith, equal_refl q) in
    rw (resolve_string_alone env (suc (suc fuel)) c [] p q qb) (
      rw (resolve_ref_enter env text c [] p q p qe q_new qv) (
        rw (resolve_string_alone env (suc fuel) c (q ∷ []) q p pb) (
          rw (resolve_ref_enter env (resolve_string env (suc fuel) c) c (q ∷ []) q p q pe p_new pv)
            (rw (resolve_string_alone env fuel c (p ∷ q ∷ []) p q qb) (
              rw (resolve_ref_cycle env (resolve_string env fuel c) c (p ∷ q ∷ []) p q qe q_old)
                refl)))))
