-- ===== src/Rootfs/Runs.antt =====
-- What is run by the parts that the steps of a rootfs share: the sandbox and the copying of files.
use hacker_os_builder.Prelude.{
  not, Bool, true, false, Option, none, some, List, [], ◌∷◌, Bytes, equal, ◌≡◌, refl, ℕ,
}
use hacker_os_builder.System.{
  Action, exec, Kind, dir_kind, file_kind, link_kind, other_kind, socket_kind, Call, act, Answer,
  Io,
}
use hacker_os_builder.System.Commands.{
  Runs, note, pure-Runs, throw-Runs, quiet_bind-Runs, within-Runs, perform-Runs_quiet, perform-Runs,
  ask-Runs, deferring-Runs, each-Runs_quiet,
}
use hacker_os_builder.Sandbox.{unshare, exec_internal, mount_points, make_mount_point}
use hacker_os_builder.Toolchain.Calls.{is_tool_command, Makes}
use hacker_os_builder.Rootfs.Files.{copy_file, copy_link, copy_kind, copy_found, copy_tree}

-- Every run of a command, but for those by which the tools are fetched.
unfoldable pub rootfs_command : Action → Bool
rootfs_command (exec dir env stdin name args) = not (is_tool_command name args)
rootfs_command _ = false

abbrev pub RunsIn : {V : Type 0} → Io V → List Action → List Action → Type 0
RunsIn m must may = Runs rootfs_command m must may

pub Makes-quiet :
    (c : Call) (s : List Action) (a : Answer c)
    → Makes (λ path. Unit {0}) (λ path. Unit {0}) c
    → note rootfs_command s c a ≡ s
unfolding rootfs_command
Makes-quiet (act (exec dir env stdin name args)) s ok p = rw p refl
Makes-quiet (act _) s ok p = refl
Makes-quiet _ s a p = refl

-- A command in the sandbox, with the mount points made before it.
module _ (root : Bytes) (stdin : Option Bytes) (command : Bytes) (args : List Bytes) where
  unshare_noted : rootfs_command (unshare root [] stdin command args) ≡ true
  unfolding rootfs_command is_tool_command unshare equal
  unshare_noted = refl

  mount_point_quiet : (sub : Bytes) → RunsIn (make_mount_point root sub) [] []
  unfolding rootfs_command
  mount_point_quiet sub = within-Runs _ _ _ _ _ (perform-Runs_quiet _ _ refl)

  pub exec_internal-Runs :
      RunsIn (exec_internal root [] stdin command args) (unshare root [] stdin command args ∷ []) []
  unfolding exec_internal
  exec_internal-Runs =
      quiet_bind-Runs _ _ _ _ _ (each-Runs_quiet _ _ mount_points mount_point_quiet)
        λ u. within-Runs _ _ _ _ _ (perform-Runs _ _ unshare_noted)

pub copy_file_quiet : (src dst : Bytes) (mode : ℕ) → RunsIn (copy_file src dst mode) [] []
unfolding copy_file rootfs_command
copy_file_quiet src dst mode = quiet_bind-Runs _ _ _ _ _ (perform-Runs_quiet _ _ refl) λ u.
    quiet_bind-Runs _ _ _ _ _ (perform-Runs_quiet _ _ refl) λ u. deferring-Runs _ _ _ _ _ refl (
      quiet_bind-Runs _ _ _ _ _ (perform-Runs_quiet _ _ refl) λ u.
        deferring-Runs _ _ _ _ _ refl (
          quiet_bind-Runs _ _ _ _ _ (perform-Runs_quiet _ _ refl) λ u. perform-Runs_quiet _ _ refl))

copy_link_quiet : (dest : Bytes) (target : Option Bytes) → RunsIn (copy_link dest target) [] []
unfolding rootfs_command
copy_link_quiet dest none = throw-Runs _ _ _ _
copy_link_quiet dest (some target) = perform-Runs_quiet _ _ refl

copy_kind_quiet :
    (kind : Kind) (path dest : Bytes) (mode : ℕ) → RunsIn (copy_kind kind path dest mode) [] []
unfolding rootfs_command
copy_kind_quiet dir_kind path dest mode = perform-Runs_quiet _ _ refl
copy_kind_quiet link_kind path dest mode = ask-Runs _ _ _ _ _ (λ s a. refl) (copy_link_quiet dest)
copy_kind_quiet file_kind path dest mode = copy_file_quiet path dest mode
copy_kind_quiet other_kind path dest mode = copy_file_quiet path dest mode
copy_kind_quiet socket_kind path dest mode = copy_file_quiet path dest mode

copy_found_quiet :
    (from to : Bytes) (kind : Kind) (mode : ℕ) (rel : Bytes) (bad : Bool)
    → RunsIn (copy_found from to kind mode rel bad) [] []
copy_found_quiet from to kind mode rel true = throw-Runs _ _ _ _
copy_found_quiet from to kind mode [] false = pure-Runs _ _
copy_found_quiet from to kind mode (c ∷ rel) false = copy_kind_quiet kind _ _ mode

pub copy_tree_quiet : (from to : Bytes) → RunsIn (copy_tree from to) [] []
unfolding copy_tree
copy_tree_quiet from to =
    ask-Runs _ _ _ _ _ (λ s a. refl)
      λ visits.
        each-Runs_quiet _ _ visits λ v. copy_found_quiet from to v.kind v.mode v.rel v.failed
