-- ===== src/System/Refusals.antt =====
-- Operations and the calls that fail in them.
use hacker_os_builder.Prelude.{
  Bool, true, false, ◌&&◌, not, Option, none, some, List, [], ◌∷◌, Bytes, ◌≡◌, refl, is_empty,
  is_some,
}
use hacker_os_builder.System.{
  Action, stat, DirReply, no_dir, dir_error, dir_entries, Visit, Call, act, read_dir, read_file,
  read_link, glob, walk, read_layers, Answer, Io, pure, ask, ◌>>=◌, perform, when, within,
  deferring, ignoring, each,
}
use hacker_os_builder.System.Ends.{
  Ends, pure-Ends, ask-Ends, then-Ends, weaken-Ends, perform-Ends, within-Ends, deferring-Ends,
  ignoring-Ends, keeps-Ends,
}

abbrev pub none_failed : List Visit → Bool
none_failed [] = true
none_failed (v ∷ visits) = not v.failed && none_failed visits

abbrev listing_read : DirReply → Bool
listing_read no_dir = true
listing_read dir_error = false
listing_read (dir_entries entries) = true

abbrev some_found : Option (List Bytes) → Bool
some_found none = false
some_found (some paths) = not (is_empty paths)

-- Whether a call succeeds. It does where os.Stat finds nothing, since that is an answer as well, and
-- a pattern has to match something.
abbrev pub succeeds : (c : Call) → Answer c → Bool
succeeds (act (stat path)) ok = true
succeeds (act a) ok = ok
succeeds (read_dir dir) reply = listing_read reply
succeeds (read_file path) content = is_some content
succeeds (read_link path) target = is_some target
succeeds (glob dir pattern) paths = some_found paths
succeeds (walk root) visits = none_failed visits
succeeds (read_layers reference) layers = is_some layers
succeeds _ answer = true

-- Whether every call so far has succeeded.
abbrev pub all_well : Bool → (c : Call) → Answer c → Bool
all_well s c a = s && succeeds c a

-- Where it fails, some call has failed.
pub record FailsOnly {V : Type 0} (m : Io V) : Type 0 where
  pub fails : (s : Bool) → Ends all_well m (λ v t. Unit {0}) (λ t. t ≡ false) s

pub and_false : (s : Bool) → (s && false) ≡ false
and_false true = refl
and_false false = refl

pub pure-FailsOnly : {V : Type 0} (v : V) → FailsOnly (pure v)
pure-FailsOnly v = record { fails = λ s. pure-Ends all_well v _ _ s tt }

pub bind-FailsOnly :
    {V W : Type 0} (m : Io V) (f : V → Io W)
    → FailsOnly m
    → ((v : V) → FailsOnly (f v))
    → FailsOnly (m >>= f)
bind-FailsOnly m f h k = record {
  fails = λ s. then-Ends all_well m f _ _ _ s (h.fails s) λ v t u. (k v).fails t;
}

pub perform-FailsOnly :
    (a : Action) → ((s : Bool) → all_well s (act a) false ≡ false) → FailsOnly (perform a)
perform-FailsOnly a h = record { fails = λ s. perform-Ends all_well a _ _ s tt (h s) }

pub ask-FailsOnly :
    {V : Type 0} (c : Call) (k : Answer c → Io V)
    → ((a : Answer c) → FailsOnly (k a))
    → FailsOnly (ask c k)
ask-FailsOnly c k h = record {
  fails = λ s. ask-Ends all_well c k _ _ s λ a. (h a).fails (all_well s c a);
}

pub within-FailsOnly : {V : Type 0} (t : Bytes) (m : Io V) → FailsOnly m → FailsOnly (within t m)
within-FailsOnly t m h = record { fails = λ s. within-Ends all_well t m _ _ s (h.fails s) }

pub when-FailsOnly : (b : Bool) (m : Io (Unit {0})) → FailsOnly m → FailsOnly (when b m)
unfolding when
when-FailsOnly true m h = h
when-FailsOnly false m h = pure-FailsOnly tt

stays_false : (s : Bool) (c : Call) (a : Answer c) → s ≡ false → all_well s c a ≡ false
stays_false s c a e = rw e refl

pub deferring-FailsOnly :
    {V : Type 0} (a : Action) (m : Io V) → FailsOnly m → FailsOnly (deferring a m)
deferring-FailsOnly a m h = record {
  fails = λ s. deferring-Ends all_well a m _ _ s (
      weaken-Ends all_well m _ _ _ _ s (λ v t u ok. tt) (λ t e ok. stays_false t (act a) ok e)
        (h.fails s));
}

pub ignoring-FailsOnly : (m : Io (Unit {0})) → FailsOnly m → FailsOnly (ignoring m)
ignoring-FailsOnly m h = record {
  fails = λ s.
      ignoring-Ends all_well m _ _ s
        (weaken-Ends all_well m _ _ _ _ s (λ v t u. tt) (λ t e. tt) (h.fails s));
}

pub each-FailsOnly :
    {X : Type 0} (f : X → Io (Unit {0})) (xs : List X)
    → ((x : X) → FailsOnly (f x))
    → FailsOnly (each f xs)
unfolding each
each-FailsOnly f [] h = pure-FailsOnly tt
each-FailsOnly f (x ∷ xs) h = bind-FailsOnly (f x) _ (h x) λ u. each-FailsOnly f xs h

pub failed-Ends :
    {V : Type 0} (m : Io V) (s : Bool)
    → s ≡ false
    → Ends all_well m (λ v t. t ≡ false) (λ t. t ≡ false) s
failed-Ends m s e = keeps-Ends all_well m (λ t. t ≡ false) s stays_false e

-- Once a call has failed, nothing is claimed any more.
pub failed-FailsOnly :
    {V : Type 0} (m : Io V) (s : Bool)
    → s ≡ false
    → Ends all_well m (λ v t. Unit {0}) (λ t. t ≡ false) s
failed-FailsOnly m s e =
    weaken-Ends all_well m _ _ _ _ s (λ v t k. tt) (λ t k. k) (failed-Ends m s e)

-- A call whose failure is thrown.
pub ask_or_throw-FailsOnly :
    {V : Type 0} (c : Call) (k : Answer c → Io V)
    → ((s : Bool) (a : Answer c)
        → Ends all_well (k a) (λ v t. Unit {0}) (λ t. t ≡ false) (s && succeeds c a))
    → FailsOnly (ask c k)
ask_or_throw-FailsOnly c k h = record { fails = λ s. ask-Ends all_well c k _ _ s (h s) }
