-- ===== src/System/Commands.antt =====
-- The calls of some kind that an operation makes, in their order, whatever the system answers.
use hacker_os_builder.Prelude.{
  Bool, true, false, List, [], ◌∷◌, ◌++◌, if◌then◌else◌, Bytes, ◌≡◌, refl, sym, ◌∙◌, inl, inr,
  append-nil,
}
use hacker_os_builder.System.{
  Action, Call, act, Answer, Io, pure, throw, ask, ◌>>=◌, perform, try_call, within, deferring,
  ignoring, each, when,
}
use hacker_os_builder.System.Always.{Always, Always-Ends}
use hacker_os_builder.System.Ends.{
  Ends, pure-Ends, throw-Ends, ask-Ends, then-Ends, weaken-Ends, perform-Ends, within-Ends,
  deferring-Ends, ignoring-Ends,
}
use hacker_os_builder.System.Parts.{
  concat_map, Grown, IsPart, IsPart-whole, IsPart-none, part_nil, part_single, Grown-exactly,
  Grown-behind, IsPart-assoc, IsPart-longer,
}

-- `noted` tells which actions are listed.
module _ (noted : Action → Bool) where
  abbrev note_action : List Action → Action → List Action
  note_action s a = if noted a then s ++ a ∷ [] else s

  abbrev pub note : List Action → (c : Call) → Answer c → List Action
  note s (act a) ok = note_action s a
  note s _ answer = s

  -- On every path that ends well, the actions that are noted are those of `must`, or of `must` and
  -- `may`; on a path that fails, a first part of them.
  pub record Runs {V : Type 0} (m : Io V) (must may : List Action) : Type 0 where
    pub runs : (s : List Action) → Ends note m (λ v. Grown s must may) (IsPart s (must ++ may)) s

  pub pure-Runs : {V : Type 0} (v : V) → Runs (pure v) [] []
  pure-Runs v = record { runs = λ s. pure-Ends note v _ _ s (inl (sym (append-nil s))) }

  pub throw-Runs :
      {V : Type 0} (e : List Bytes) (must may : List Action) → Runs {V = V} (throw e) must may
  throw-Runs e must may = record {
    runs = λ s. throw-Ends note e _ _ s (IsPart-none s (must ++ may));
  }

  pub bind-Runs :
      {V W : Type 0} (m : Io V) (f : V → Io W) (xs ys may : List Action)
      → Runs m xs []
      → ((v : V) → Runs (f v) ys may)
      → Runs (m >>= f) (xs ++ ys) may
  bind-Runs m f xs ys may h k = record {
    runs = λ s.
        then-Ends note m f _ _ _ s
          (weaken-Ends note m (λ v. Grown s xs []) (λ v. Grown s xs []) (IsPart s (xs ++ []))
            (IsPart s ((xs ++ ys) ++ may)) s (λ v t g. g) (IsPart-longer s xs ys may) (h.runs s))
          λ v t g. rw (Grown-exactly s xs t g) (
            weaken-Ends note (f v) (λ w. Grown (s ++ xs) ys may) _ (IsPart (s ++ xs) (ys ++ may)) _
              _ (λ w u. Grown-behind s xs ys may u) (IsPart-assoc s xs ys may)
              ((k v).runs (s ++ xs)));
  }

  -- A part that makes no such call, before another and behind it.
  pub quiet_bind-Runs :
      {V W : Type 0} (m : Io V) (f : V → Io W) (ys may : List Action)
      → Runs m [] []
      → ((v : V) → Runs (f v) ys may)
      → Runs (m >>= f) ys may
  quiet_bind-Runs m f ys may h k = bind-Runs m f [] ys may h k

  pub bind-Runs_quiet :
      {V W : Type 0} (m : Io V) (f : V → Io W) (xs may : List Action)
      → Runs m xs may
      → ((v : V) → Runs (f v) [] [])
      → Runs (m >>= f) xs may
  bind-Runs_quiet m f xs may h k = record {
    runs = λ s. then-Ends note m f _ _ _ s (h.runs s) λ v t g.
        weaken-Ends note (f v) (λ w. Grown t [] []) _ (IsPart t []) _ t
          (λ w u g'. rw (Grown-exactly t [] u g' ∙ append-nil t) g)
          (λ u p. rw (part_nil t u p) (IsPart-whole s xs may t g)) ((k v).runs t);
  }

  pub within-Runs :
      {V : Type 0} (t : Bytes) (m : Io V) (xs may : List Action)
      → Runs m xs may
      → Runs (within t m) xs may
  within-Runs t m xs may h = record { runs = λ s. within-Ends note t m _ _ s (h.runs s) }

  -- An action that is not listed, and one that is.
  pub perform-Runs_quiet : (a : Action) → noted a ≡ false → Runs (perform a) [] []
  perform-Runs_quiet a h = record {
    runs =
        λ s. perform-Ends note a _ _ s (rw h (inl (sym (append-nil s)))) (rw h (IsPart-none s []));
  }

  pub perform-Runs : (a : Action) → noted a ≡ true → Runs (perform a) (a ∷ []) []
  perform-Runs a h = record {
    runs = λ s.
        perform-Ends note a _ _ s (rw h (inl refl))
          (rw h (IsPart-whole s (a ∷ []) [] _ (inl refl)));
  }

  -- A call whose error is ignored.
  pub try_call-Runs : (a : Action) → noted a ≡ true → Runs (try_call a) (a ∷ []) []
  try_call-Runs a h = record {
    runs = λ s. ask-Ends note (act a) _ _ _ s λ ok. pure-Ends note tt _ _ _ (rw h (inl refl));
  }

  pub ask-Runs :
      {V : Type 0} (c : Call) (k : Answer c → Io V) (xs may : List Action)
      → ((s : List Action) (a : Answer c) → note s c a ≡ s)
      → ((a : Answer c) → Runs (k a) xs may)
      → Runs (ask c k) xs may
  ask-Runs c k xs may quiet h = record {
    runs = λ s. ask-Ends note c k _ _ s λ a. rw (quiet s a) ((h a).runs s);
  }

  pub when-Runs :
      (b : Bool) (m : Io (Unit {0})) (xs : List Action)
      → Runs m xs []
      → Runs (when b m) (if b then xs else []) []
  unfolding when
  when-Runs true m xs h = h
  when-Runs false m xs h = pure-Runs tt

  pub when-Runs_quiet : (b : Bool) (m : Io (Unit {0})) → Runs m [] [] → Runs (when b m) [] []
  unfolding when
  when-Runs_quiet true m h = h
  when-Runs_quiet false m h = pure-Runs tt

  pub deferring-Runs :
      {V : Type 0} (a : Action) (m : Io V) (xs may : List Action)
      → noted a ≡ false
      → Runs m xs may
      → Runs (deferring a m) xs may
  deferring-Runs a m xs may quiet h = record {
    runs = λ s. deferring-Ends note a m _ _ s (
        weaken-Ends note m (λ v. Grown s xs may) _ (IsPart s (xs ++ may)) _ s
          (λ v t g ok. rw quiet g) (λ t p ok. rw quiet p) (h.runs s));
  }

  -- A failure that is ignored: the action may be left out.
  pub ignoring-Runs :
      (m : Io (Unit {0})) (a : Action) → Runs m (a ∷ []) [] → Runs (ignoring m) [] (a ∷ [])
  ignoring-Runs m a h = record {
    runs = λ s. ignoring-Ends note m _ _ s (
        weaken-Ends note m (λ v. Grown s (a ∷ []) []) _ (IsPart s (a ∷ [])) _ s
          (λ v t g. rw (append-nil s) (inr (Grown-exactly s (a ∷ []) t g)))
          (λ t p. part_single s a t p) (h.runs s));
  }

  pub each-Runs :
      {X : Type 0} (f : X → Io (Unit {0})) (g : X → List Action) (xs : List X)
      → ((x : X) → Runs (f x) (g x) [])
      → Runs (each f xs) (concat_map g xs) []
  unfolding each
  each-Runs f g [] h = pure-Runs tt
  each-Runs f g (x ∷ xs) h = bind-Runs (f x) _ (g x) _ [] (h x) λ u. each-Runs f g xs h

  pub each-Runs_quiet :
      {X : Type 0} (f : X → Io (Unit {0})) (xs : List X)
      → ((x : X) → Runs (f x) [] [])
      → Runs (each f xs) [] []
  unfolding each
  each-Runs_quiet f [] h = pure-Runs tt
  each-Runs_quiet f (x ∷ xs) h = quiet_bind-Runs (f x) _ [] [] (h x) λ u. each-Runs_quiet f xs h

  -- An operation all of whose calls are of a kind that is not listed.
  pub Always-Runs :
      {V : Type 0} (P : Call → Type 0) (m : Io V)
      → ((c : Call) (s : List Action) (a : Answer c) → P c → note s c a ≡ s)
      → Always P m
      → Runs m [] []
  Always-Runs P m quiet h = record {
    runs = λ s.
        weaken-Ends note m (λ v t. t ≡ s) _ (λ t. t ≡ s) _ s (λ v t e. inl (e ∙ sym (append-nil s)))
          (λ t e. rw e (IsPart-none s []))
          (Always-Ends P note m (λ t. t ≡ s) s (λ t c a p e. quiet c t a p ∙ e) h refl);
  }
