-- ===== src/Buildlock/Released.antt =====
-- The states of a lock, on every path.
use hacker_os_builder.Prelude.{
  ℕ, Bool, true, false, Option, none, some, Bytes, if◌then◌else◌, ◌≡◌, refl, ◌∙◌,
}
use hacker_os_builder.System.{
  open_lock, lock_file, unlock_file, truncate_file, write_text, make_dirs, close_file, act, Call,
  Answer, Failure, Io, ◌>>=◌,
}
use hacker_os_builder.System.Ends.{
  Ends, pure-Ends, throw-Ends, ask-Ends, then-Ends, weaken-Ends, perform-Ends, within-Ends,
}
use hacker_os_builder.Buildlock.{Lock, lock_path, take_lock, acquire, release}

-- What the process has of the lock: nothing, the file open, or the file open and locked.
pub data Holding : Type 0 where
  free opened locked : Holding

abbrev pub after_call : Holding → (c : Call) → Answer c → Holding
after_call s (act (open_lock path)) ok = if ok then opened else s
after_call s (act (lock_file path)) ok = if ok then locked else s
after_call s (act (unlock_file path)) ok = if ok then opened else s
after_call s (act (close_file path)) ok = free
after_call s _ answer = s

-- A lock that is held has its file.
abbrev IsHeld : Lock → Holding → Type 0
IsHeld l s = (path : Bytes) × (l.file ≡ some path) × (s ≡ locked)

take_lock-Ends :
    (path : Bytes) (pid : ℕ) (ok : Bool)
    → Ends after_call (take_lock path pid ok) IsHeld (λ t. t ≡ free) (if ok then locked else opened)
unfolding take_lock ◌>>=◌
take_lock-Ends path pid true = ask-Ends after_call (act (truncate_file path)) _ _ _ _ λ ok.
    ask-Ends after_call (act (write_text path _)) _ _ _ _
      λ ok. pure-Ends after_call _ _ _ _ (path, refl, refl)
take_lock-Ends path pid false =
    ask-Ends after_call (act (close_file path)) _ _ _ _ λ ok. throw-Ends after_call _ _ _ _ refl

-- Whatever the system answers, an Acquire that returns holds the lock, and one that fails has left
-- no file open.
pub acquire-Ends :
    (work_dir : Bytes) (pid : ℕ)
    → Ends after_call (acquire work_dir pid) IsHeld (λ t. t ≡ free) free
unfolding acquire
acquire-Ends work_dir pid =
    then-Ends after_call _ _ (λ u t. t ≡ free) _ _ free
      (within-Ends after_call _ _ _ _ free
        (perform-Ends after_call (make_dirs work_dir 0o755) _ _ free refl refl))
      λ u t e.
        then-Ends after_call _ _ (λ u t. t ≡ opened) _ _ t
          (within-Ends after_call _ _ _ _ t
            (perform-Ends after_call (open_lock (lock_path work_dir)) _ _ t refl e))
          λ u t e. rw e (
            ask-Ends after_call (act (lock_file (lock_path work_dir))) _ _ _ opened
              (take_lock-Ends (lock_path work_dir) pid))

-- A Release ends with nothing held, and the lock has no file any more.
release-Ends :
    (l : Lock) (s : Holding)
    → IsHeld l s
    → Ends after_call (release l) (λ r t. (r.0.file ≡ none) × (t ≡ free)) (λ t. ⊥) s
unfolding release
release-Ends l s (path, file, held) = rw file (
    ask-Ends after_call (act (unlock_file path)) _ _ _ s λ unlocked.
      ask-Ends after_call (act (close_file path)) _ _ _ _
        λ closed. pure-Ends after_call _ _ _ _ (refl, refl))

-- A second one does nothing.
released-Ends :
    (l : Lock) (s : Holding)
    → l.file ≡ none
    → Ends after_call (release l) (λ r t. (r.1 ≡ none) × (t ≡ s)) (λ t. ⊥) s
unfolding release
released-Ends l s e = rw e (pure-Ends after_call _ _ _ s (refl, refl))

-- Acquire, Release, and Release again of the lock that is left.
abbrev pub acquire_release : Bytes → ℕ → Io (Lock × Option Failure)
acquire_release work_dir pid = do l ← acquire work_dir pid; r ← release l; release r.0

-- Whatever the system answers, an Acquire that fails, and an Acquire followed by two Releases, leave
-- the process with no lock and no open file, and the second Release reports no error.
pub acquire_release-Ends :
    (work_dir : Bytes) (pid : ℕ)
    → Ends after_call
        (acquire_release work_dir pid)
        (λ r t. (r.1 ≡ none) × (t ≡ free))
        (λ t. t ≡ free)
        free
acquire_release-Ends work_dir pid =
    then-Ends after_call _ _ _ _ _ free (acquire-Ends work_dir pid) λ l t held.
      then-Ends after_call _ _ _ _ _ t
        (weaken-Ends after_call _ _ _ _ _ t (λ r u k. k) (λ u k. absurd k) (release-Ends l t held))
        λ r u k.
          weaken-Ends after_call _ _ _ _ _ u (λ q w j. (j.0, j.1 ∙ k.1)) (λ w j. absurd j)
            (released-Ends r.0 u k.0)
