-- ===== src/System/Always.antt =====
-- What every call of an operation satisfies, whatever the system answers.
use hacker_os_builder.Prelude.{Bool, true, false, List, [], ◌∷◌, Bytes}
use hacker_os_builder.System.{
  Action, Call, act, Answer, Failure, Io, pure, throw, ask, ◌>>=◌, perform, answered, within,
  deferring, each, when,
}
use hacker_os_builder.System.Ends.{Ends, pure-Ends, throw-Ends, ask-Ends}

module _ (P : Call → Type 0) where
  abbrev AlwaysSo : {V : Type 0} → Io V → Type 0
  AlwaysSo (pure v) = Unit
  AlwaysSo (throw e) = Unit
  AlwaysSo (ask c k) = P c × ((a : Answer c) → AlwaysSo (k a))

  pub record Always {V : Type 0} (m : Io V) : Type 0 where
    pub always : AlwaysSo m

  pub pure-Always : {V : Type 0} (v : V) → Always (pure v)
  pure-Always v = record { always = tt }

  pub throw-Always : {V : Type 0} (e : Failure) → Always {V = V} (throw e)
  throw-Always e = record { always = tt }

  pub ask-Always :
      {V : Type 0} (c : Call) (k : Answer c → Io V)
      → P c
      → ((a : Answer c) → Always (k a))
      → Always (ask c k)
  ask-Always c k p h = record { always = (p, λ a. (h a).always) }

  answer_Always :
      {V : Type 0} (c : Call) (k : Answer c → Io V)
      → Always (ask c k)
      → (a : Answer c) → Always (k a)
  answer_Always c k h a = record { always = h.always.1 a }

  pub bind-Always :
      {V W : Type 0} (m : Io V) (f : V → Io W)
      → Always m
      → ((v : V) → Always (f v))
      → Always (m >>= f)
  unfolding ◌>>=◌
  bind-Always (pure v) f h k = k v
  bind-Always (throw e) f h k = throw-Always e
  bind-Always (ask c q) f h k =
      ask-Always c _ h.always.0 λ a. bind-Always (q a) f (answer_Always c q h a) k

  answered-Always : (ok : Bool) → Always (answered ok)
  answered-Always true = pure-Always tt
  answered-Always false = throw-Always []

  pub perform-Always : (a : Action) → P (act a) → Always (perform a)
  perform-Always a h = ask-Always (act a) answered h answered-Always

  pub within-Always : {V : Type 0} (t : Bytes) (m : Io V) → Always m → Always (within t m)
  unfolding within
  within-Always t (pure v) h = pure-Always v
  within-Always t (throw e) h = throw-Always _
  within-Always t (ask c q) h =
      ask-Always c _ h.always.0 λ a. within-Always t (q a) (answer_Always c q h a)

  pub when-Always : (b : Bool) (m : Io (Unit {0})) → Always m → Always (when b m)
  unfolding when
  when-Always true m h = h
  when-Always false m h = pure-Always tt

  pub deferring-Always :
      {V : Type 0} (a : Action) (m : Io V) → P (act a) → Always m → Always (deferring a m)
  unfolding deferring
  deferring-Always a (pure v) p h = ask-Always (act a) _ p λ ok. pure-Always v
  deferring-Always a (throw e) p h = ask-Always (act a) _ p λ ok. throw-Always e
  deferring-Always a (ask c q) p h =
      ask-Always c _ h.always.0
        λ answer. deferring-Always a (q answer) p (answer_Always c q h answer)

  pub each-Always :
      {X : Type 0} (f : X → Io (Unit {0})) (xs : List X)
      → ((x : X) → Always (f x))
      → Always (each f xs)
  unfolding each
  each-Always f [] h = pure-Always tt
  each-Always f (x ∷ xs) h = bind-Always (f x) _ (h x) λ u. each-Always f xs h

  -- What every such call keeps holds at the end, however it ends.
  pub Always-Ends :
      {S V : Type 0} (next : S → (c : Call) → Answer c → S) (m : Io V) (I : S → Type 0) (s : S)
      → ((t : S) (c : Call) (a : Answer c) → P c → I t → I (next t c a))
      → Always m
      → I s
      → Ends next m (λ v. I) I s
  Always-Ends next (pure v) I s h p i = pure-Ends next v _ _ s i
  Always-Ends next (throw e) I s h p i = throw-Ends next e _ _ s i
  Always-Ends next (ask c k) I s h p i =
      ask-Ends next c k _ _ s
        λ a. Always-Ends next (k a) I _ h (answer_Always c k p a) (h s c a p.always.0 i)
