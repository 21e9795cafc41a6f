-- ===== src/System/Given.antt =====
-- A state that follows the calls of an operation, and what holds of it at the end, where the system
-- answers each call as a function of the call says.
use hacker_os_builder.Prelude.{Bool, true, false, ◌≡◌, refl}
use hacker_os_builder.System.{
  Action, Call, act, Answer, Io, pure, throw, ask, ◌>>=◌, perform, answered, deferring,
}

module _ {S : Type 0} (next : S → (c : Call) → Answer c → S) (o : (c : Call) → Answer c) where
  -- A call that only succeeds or fails is refused.
  abbrev IsRefused : Type 0
  IsRefused = (a : Action) × (o (act a) ≡ false)

  abbrev EndsSo : {V : Type 0} → Io V → (V → S → Type 0) → S → Type 0
  EndsSo (pure v) D s = D v s
  EndsSo (throw e) D s = IsRefused
  EndsSo (ask c k) D s = EndsSo (k (o c)) D (next s c (o c))

  -- From the state `s`, `D` holds where the operation returns, and where it fails, a call is
  -- refused.
  pub record Given {V : Type 0} (m : Io V) (D : V → S → Type 0) (s : S) : Type 0 where
    pub given : EndsSo m D s

  pub pure-Given : {V : Type 0} (v : V) (D : V → S → Type 0) (s : S) → D v s → Given (pure v) D s
  pure-Given v D s h = record { given = h }

  pub ask-Given :
      {V : Type 0} (c : Call) (k : Answer c → Io V) (D : V → S → Type 0) (s : S)
      → Given (k (o c)) D (next s c (o c))
      → Given (ask c k) D s
  ask-Given c k D s h = record { given = h.given }

  pub then-Given :
      {V W : Type 0} (m : Io V) (f : V → Io W) (E : V → S → Type 0) (D : W → S → Type 0) (s : S)
      → Given m E s
      → ((v : V) (t : S) → E v t → Given (f v) D t)
      → Given (m >>= f) D s
  unfolding ◌>>=◌
  then-Given (pure v) f E D s h k = k v s h.given
  then-Given (throw e) f E D s h k = record { given = h.given }
  then-Given (ask c q) f E D s h k =
      ask-Given c _ D s (then-Given (q (o c)) f E D _ (record { given = h.given }) k)

  answered-Given :
      (a : Action) (D : Unit {0} → S → Type 0) (s : S) (ok : Bool)
      → o (act a) ≡ ok
      → D tt (next s (act a) true)
      → Given (answered ok) D (next s (act a) ok)
  answered-Given a D s true e h = record { given = h }
  answered-Given a D s false e h = record { given = (a, e) }

  pub perform-Given :
      (a : Action) (D : Unit {0} → S → Type 0) (s : S)
      → D tt (next s (act a) true)
      → Given (perform a) D s
  perform-Given a D s h = ask-Given (act a) answered D s (answered-Given a D s (o (act a)) refl h)

  pub deferring-Given :
      {V : Type 0} (a : Action) (m : Io V) (D : V → S → Type 0) (s : S)
      → Given m (λ v t. D v (next t (act a) (o (act a)))) s
      → Given (deferring a m) D s
  unfolding deferring
  deferring-Given a (pure v) D s h = record { given = h.given }
  deferring-Given a (throw e) D s h = record { given = h.given }
  deferring-Given a (ask c k) D s h =
      ask-Given c _ D s (deferring-Given a (k (o c)) D _ (record { given = h.given }))

  pub weaken-Given :
      {V : Type 0} (m : Io V) (D D' : V → S → Type 0) (s : S)
      → ((v : V) (t : S) → D v t → D' v t)
      → Given m D s
      → Given m D' s
  weaken-Given (pure v) D D' s d h = record { given = d v s h.given }
  weaken-Given (throw e) D D' s d h = record { given = h.given }
  weaken-Given (ask c k) D D' s d h =
      ask-Given c k D' s (weaken-Given (k (o c)) D D' _ d (record { given = h.given }))
