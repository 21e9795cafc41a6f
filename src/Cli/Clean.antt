-- ===== src/Cli/Clean.antt =====
-- main.go: the command "clean".
use hacker_os_builder.Prelude.{Bool, Bytes, codes}
use hacker_os_builder.System.{remove, remove_all, stat, act, Io, ask, ◌>>=◌, perform, when, within}

-- The exit of the process with a message is a failure.
abbrev pub if_there : Io (Unit {0}) → Bool → Io (Unit {0})
if_there m there = when there m

unfoldable pub run_clean : Bytes → Bytes → Bool → Io (Unit {0})
run_clean work_dir output_iso all = do
  u ← ask (act (stat work_dir)) (
      if_there
        (within (codes "nie mozna usunac katalogu roboczego") (perform (remove_all work_dir))))
  when all (
      ask (act (stat output_iso))
        (if_there (within (codes "nie mozna usunac") (perform (remove output_iso)))))
