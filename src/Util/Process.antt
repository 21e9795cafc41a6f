-- ===== src/Util/Process.antt =====
-- internal/util/process.go: how a run of a command is reported. What became of the process is a
-- value here.
use hacker_os_builder.Prelude.{Bool, false, Bytes, ◌==◌, if◌then◌else◌, Option, none, some}
use hacker_os_builder.Text.Decimal.{ℤ, pos, negsuc}

-- A process that could not be started, or was not waited for; or one that ended with an exit code,
-- which is -1 where a signal ended it.
pub data Ran : Type 0 where
  not_run : Ran
  exited : ℤ → Ran

pub record RunResult : Type 0 where
  pub exit_code : ℤ
  pub stdout : Bytes
  pub stderr : Bytes

abbrev pub is_zero : ℤ → Bool
is_zero (pos n) = n == 0
is_zero (negsuc n) = false

abbrev pub result_ok : RunResult → Bool
result_ok r = is_zero r.exit_code

pub data RunError : Type 0 where
  not_started : RunError
  ended_with : ℤ → RunError

-- The result, and the error if there is one: a code other than 0 is none.
unfoldable pub run_in_dir : Ran → Bytes → Bytes → RunResult × Option RunError
run_in_dir not_run stdout stderr =
    (record { exit_code = pos 0; stdout = stdout; stderr = stderr }, some not_started)
run_in_dir (exited code) stdout stderr =
    (record { exit_code = code; stdout = stdout; stderr = stderr }, none)

-- RunOrError: a code other than 0 is an error.
abbrev pub or_error : RunResult → Option RunError → RunResult × Option RunError
or_error r (some e) = (r, some e)
or_error r none = (r, if result_ok r then none else some (ended_with r.exit_code))

unfoldable pub run_or_error : Ran → Bytes → Bytes → RunResult × Option RunError
run_or_error ran stdout stderr = let (r, e) = run_in_dir ran stdout stderr in or_error r e
