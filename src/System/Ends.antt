-- ===== src/System/Ends.antt =====
-- A state that follows the calls of an operation, and what holds of it at the end, whatever the
-- system answers.
use hacker_os_builder.Prelude.{Bool, true, false, List, [], ◌∷◌, Bytes}
use hacker_os_builder.System.{
  Action, Call, act, Answer, Io, pure, throw, ask, ◌>>=◌, perform, answered, within, deferring,
  ignoring, each,
}

-- `next` is the state behind a call.
module _ {S : Type 0} (next : S → (c : Call) → Answer c → S) where
  abbrev EndsSo : {V : Type 0} → Io V → (V → S → Type 0) → (S → Type 0) → S → Type 0
  EndsSo (pure v) D F s = D v s
  EndsSo (throw e) D F s = F s
  EndsSo (ask c k) D F s = (a : Answer c) → EndsSo (k a) D F (next s c a)

  -- From the state `s`, `D` holds where the operation returns, and `F` where it fails.
  pub record Ends {V : Type 0} (m : Io V) (D : V → S → Type 0) (F : S → Type 0) (s : S)
      : Type 0 where
    pub ends : EndsSo m D F s

  pub pure-Ends :
      {V : Type 0} (v : V) (D : V → S → Type 0) (F : S → Type 0) (s : S)
      → D v s
      → Ends (pure v) D F s
  pure-Ends v D F s h = record { ends = h }

  pub throw-Ends :
      {V : Type 0} (e : List Bytes) (D : V → S → Type 0) (F : S → Type 0) (s : S)
      → F s
      → Ends (throw e) D F s
  throw-Ends e D F s h = record { ends = h }

  pub ask-Ends :
      {V : Type 0} (c : Call) (k : Answer c → Io V) (D : V → S → Type 0) (F : S → Type 0) (s : S)
      → ((a : Answer c) → Ends (k a) D F (next s c a))
      → Ends (ask c k) D F s
  ask-Ends c k D F s h = record { ends = λ a. (h a).ends }

  -- The answer of a call.
  pub answer_Ends :
      {V : Type 0} (c : Call) (k : Answer c → Io V) (D : V → S → Type 0) (F : S → Type 0) (s : S)
      → Ends (ask c k) D F s
      → (a : Answer c) → Ends (k a) D F (next s c a)
  answer_Ends c k D F s h a = record { ends = h.ends a }

  pub bind-Ends :
      {V W : Type 0} (m : Io V) (f : V → Io W) (D : W → S → Type 0) (F : S → Type 0) (s : S)
      → Ends m (λ v. Ends (f v) D F) F s
      → Ends (m >>= f) D F s
  unfolding ◌>>=◌
  bind-Ends (pure v) f D F s h = h.ends
  bind-Ends (throw e) f D F s h = throw-Ends e D F s h.ends
  bind-Ends (ask c k) f D F s h =
      ask-Ends c _ D F s λ a. bind-Ends (k a) f D F (next s c a) (answer_Ends c k _ F s h a)

  pub weaken-Ends :
      {V : Type 0} (m : Io V) (D D' : V → S → Type 0) (F F' : S → Type 0) (s : S)
      → ((v : V) (t : S) → D v t → D' v t)
      → ((t : S) → F t → F' t)
      → Ends m D F s
      → Ends m D' F' s
  weaken-Ends (pure v) D D' F F' s d f h = pure-Ends v D' F' s (d v s h.ends)
  weaken-Ends (throw e) D D' F F' s d f h = throw-Ends e D' F' s (f s h.ends)
  weaken-Ends (ask c k) D D' F F' s d f h =
      ask-Ends c k D' F' s λ a. weaken-Ends (k a) D D' F F' _ d f (answer_Ends c k D F s h a)

  -- The rest of an operation, from what its first part ensures.
  pub then-Ends :
      {V W : Type 0} (m : Io V) (f : V → Io W) (E : V → S → Type 0) (D : W → S → Type 0)
      (F : S → Type 0) (s : S)
      → Ends m E F s
      → ((v : V) (t : S) → E v t → Ends (f v) D F t)
      → Ends (m >>= f) D F s
  then-Ends m f E D F s h k =
      bind-Ends m f D F s (weaken-Ends m E (λ v. Ends (f v) D F) F F s k (λ t e. e) h)

  -- Both of what holds.
  pub both-Ends :
      {V : Type 0} (m : Io V) (D D' : V → S → Type 0) (F F' : S → Type 0) (s : S)
      → Ends m D F s
      → Ends m D' F' s
      → Ends m (λ v t. D v t × D' v t) (λ t. F t × F' t) s
  both-Ends (pure v) D D' F F' s h k = pure-Ends v _ _ s (h.ends, k.ends)
  both-Ends (throw e) D D' F F' s h k = throw-Ends e _ _ s (h.ends, k.ends)
  both-Ends (ask c q) D D' F F' s h k =
      ask-Ends c q _ _ s
        λ a. both-Ends (q a) D D' F F' _ (answer_Ends c q D F s h a) (answer_Ends c q D' F' s k a)

  -- What the last part ensures in any state.
  pub last-Ends :
      {V W : Type 0} (m : Io V) (f : V → Io W) (D : W → S → Type 0) (s : S)
      → ((v : V) (t : S) → Ends (f v) D (λ u. Unit {0}) t)
      → Ends (m >>= f) D (λ u. Unit {0}) s
  unfolding ◌>>=◌
  last-Ends (pure v) f D s h = h v s
  last-Ends (throw e) f D s h = throw-Ends e D _ s tt
  last-Ends (ask c k) f D s h = ask-Ends c _ D _ s λ a. last-Ends (k a) f D _ h

  -- What every call keeps holds at the end, however it ends.
  pub keeps-Ends :
      {V : Type 0} (m : Io V) (I : S → Type 0) (s : S)
      → ((t : S) (c : Call) (a : Answer c) → I t → I (next t c a))
      → I s
      → Ends m (λ v. I) I s
  keeps-Ends (pure v) I s h i = pure-Ends v _ _ s i
  keeps-Ends (throw e) I s h i = throw-Ends e _ _ s i
  keeps-Ends (ask c k) I s h i = ask-Ends c k _ _ s λ a. keeps-Ends (k a) I _ h (h s c a i)

  answered-Ends :
      (ok : Bool) (D : Unit {0} → S → Type 0) (F : S → Type 0) (x : Action) (s : S)
      → D tt (next s (act x) true)
      → F (next s (act x) false)
      → Ends (answered ok) D F (next s (act x) ok)
  answered-Ends true D F x s d f = pure-Ends tt D F _ d
  answered-Ends false D F x s d f = throw-Ends [] D F _ f

  pub perform-Ends :
      (x : Action) (D : Unit {0} → S → Type 0) (F : S → Type 0) (s : S)
      → D tt (next s (act x) true)
      → F (next s (act x) false)
      → Ends (perform x) D F s
  perform-Ends x D F s d f = ask-Ends (act x) answered D F s λ ok. answered-Ends ok D F x s d f

  pub within-Ends :
      {V : Type 0} (t : Bytes) (m : Io V) (D : V → S → Type 0) (F : S → Type 0) (s : S)
      → Ends m D F s
      → Ends (within t m) D F s
  unfolding within
  within-Ends t (pure v) D F s h = h
  within-Ends t (throw e) D F s h = throw-Ends _ D F s h.ends
  within-Ends t (ask c k) D F s h =
      ask-Ends c _ D F s λ a. within-Ends t (k a) D F _ (answer_Ends c k D F s h a)

  pub deferring-Ends :
      {V : Type 0} (x : Action) (m : Io V) (D : V → S → Type 0) (F : S → Type 0) (s : S)
      → Ends m
          (λ v t. (ok : Bool) → D v (next t (act x) ok))
          (λ t. (ok : Bool) → F (next t (act x) ok))
          s
      → Ends (deferring x m) D F s
  unfolding deferring
  deferring-Ends x (pure v) D F s h = ask-Ends (act x) _ D F s λ ok. pure-Ends v D F _ (h.ends ok)
  deferring-Ends x (throw e) D F s h = ask-Ends (act x) _ D F s λ ok. throw-Ends e D F _ (h.ends ok)
  deferring-Ends x (ask c k) D F s h =
      ask-Ends c _ D F s λ a. deferring-Ends x (k a) D F _ (answer_Ends c k _ _ s h a)

  pub ignoring-Ends :
      (m : Io (Unit {0})) (D : Unit {0} → S → Type 0) (F : S → Type 0) (s : S)
      → Ends m D (D tt) s
      → Ends (ignoring m) D F s
  unfolding ignoring
  ignoring-Ends (pure tt) D F s h = pure-Ends tt D F s h.ends
  ignoring-Ends (throw e) D F s h = pure-Ends tt D F s h.ends
  ignoring-Ends (ask c k) D F s h =
      ask-Ends c _ D F s λ a. ignoring-Ends (k a) D F _ (answer_Ends c k D (D tt) s h a)

  -- A loop keeps what each of its rounds keeps.
  pub each-Ends :
      {X : Type 0} (f : X → Io (Unit {0})) (xs : List X) (I F : S → Type 0) (s : S)
      → ((x : X) (t : S) → I t → Ends (f x) (λ u. I) F t)
      → I s
      → Ends (each f xs) (λ u. I) F s
  unfolding each
  each-Ends f [] I F s h i = pure-Ends tt _ F s i
  each-Ends f (x ∷ xs) I F s h i =
      then-Ends (f x) _ (λ u. I) _ F s (h x s i) λ u t. each-Ends f xs I F t h
