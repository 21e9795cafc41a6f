-- ===== src/Buildlock.antt =====
-- internal/buildlock/lock.go: the lock of a working directory.
pub mod Released
use hacker_os_builder.Prelude.{
  ℕ, Bool, true, false, Option, none, some, List, [], ◌∷◌, ◌++◌, Bytes, codes,
}
use hacker_os_builder.Text.Decimal.{print_ℕ}
use hacker_os_builder.Liveparse.{join_path}
use hacker_os_builder.System.{
  make_dirs, open_lock, lock_file, unlock_file, truncate_file, write_text, close_file, act, Failure,
  Io, pure, throw, ask, ◌>>=◌, perform, try_call, within,
}

-- `file` is the path of the open file, `none` once the lock is released.
pub record Lock : Type 0 where
  pub file : Option Bytes
  pub path : Bytes

abbrev pub lock_path : Bytes → Bytes
lock_path work_dir = join_path work_dir (codes ".hackeros-builder.lock")

-- What is done where flock succeeds and where it fails. The number of the process is written for
-- information only, so its errors are ignored.
unfoldable pub take_lock : Bytes → ℕ → Bool → Io Lock
take_lock path pid true = do
  u ← try_call (truncate_file path)
  u ← try_call (write_text path (print_ℕ pid ++ b'\n' ∷ []))
  pure (record { file = some path; path = path })
take_lock path pid false = do
  u ← try_call (close_file path)
  throw (codes "buildlock: katalog roboczy jest juz uzywany przez inny build" ∷ [])

unfoldable pub acquire : Bytes → ℕ → Io Lock
acquire work_dir pid = do
  u ← within (codes "buildlock: nie mozna utworzyc") (perform (make_dirs work_dir 0o755))
  u ← within (codes "buildlock: nie mozna otworzyc") (perform (open_lock (lock_path work_dir)))
  ask (act (lock_file (lock_path work_dir))) (take_lock (lock_path work_dir) pid)

-- The error of the unlocking comes before that of the closing.
abbrev pub release_error : Bool → Bool → Option Failure
release_error false closed = some (codes "buildlock: zwolnienie blokady" ∷ [])
release_error true false = some []
release_error true true = none

-- The lock behind it, and the error.
abbrev pub release_file : Lock → Option Bytes → Io (Lock × Option Failure)
release_file l none = pure (l, none)
release_file l (some file) = ask (act (unlock_file file)) λ unlocked.
    ask (act (close_file file))
      λ closed. pure (record l { file = none }, release_error unlocked closed)

unfoldable pub release : Lock → Io (Lock × Option Failure)
release l = release_file l l.file
