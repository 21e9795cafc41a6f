-- ===== src/Rootfs/Commands.antt =====
-- The commands of a rootfs: debootstrap, and what is run inside it.
use hacker_os_builder.Prelude.{
  not, Option, none, some, List, [], ◌∷◌, ◌++◌, if◌then◌else◌, Bytes, codes, equal, is_empty, refl,
}
use hacker_os_builder.Liveparse.{HookScript}
use hacker_os_builder.System.{Action}
use hacker_os_builder.System.Parts.{concat_map}
use hacker_os_builder.System.Commands.{
  Runs, pure-Runs, bind-Runs, quiet_bind-Runs, bind-Runs_quiet, within-Runs, perform-Runs_quiet,
  perform-Runs, ask-Runs, deferring-Runs, ignoring-Runs, each-Runs, each-Runs_quiet, when-Runs,
  when-Runs_quiet, Always-Runs,
}
use hacker_os_builder.Sandbox.{unshare, exec_in, exec_with_stdin}
use hacker_os_builder.Toolchain.Calls.{is_tool_command, prepare_all-Makes}
use hacker_os_builder.Rootfs.Contents.{
  mac_packages, preseed, deb_ostree_deps, install_args, assume_yes, apt_get,
}
use hacker_os_builder.Rootfs.{
  Builder, debootstrap, hook_name, run_hook, build, finish_build, apply_extra_sources,
  install_packages, prepare_tools, prepare_dir, run_debootstrap, seed_debconf, install_sudo_stub,
  install_mac_packages, run_hooks, wanted_version, inject_deb_ostree, install_deb_ostree_deps,
  generate_deb_ostree_config,
}
use hacker_os_builder.Rootfs.Runs.{
  exec_internal-Runs, rootfs_command, RunsIn, Makes-quiet, copy_file_quiet, copy_tree_quiet,
}

module _ (b : Builder) where
  abbrev pub in_rootfs : Option Bytes → Bytes → List Bytes → Action
  in_rootfs stdin command args = unshare b.rootfs_dir [] stdin command args

  exec_in-Runs :
      (command : Bytes) (args : List Bytes)
      → RunsIn (exec_in b.rootfs_dir command args) (in_rootfs none command args ∷ []) []
  unfolding exec_in
  exec_in-Runs command args = exec_internal-Runs b.rootfs_dir none command args

  exec_with_stdin-Runs :
      (text command : Bytes) (args : List Bytes)
      → RunsIn
          (exec_with_stdin b.rootfs_dir text command args)
          (in_rootfs (some text) command args ∷ [])
          []
  unfolding exec_with_stdin
  exec_with_stdin-Runs text command args = exec_internal-Runs b.rootfs_dir (some text) command args

  apply_extra_sources_quiet : RunsIn (apply_extra_sources b) [] []
  unfolding apply_extra_sources rootfs_command
  apply_extra_sources_quiet = quiet_bind-Runs _ _ _ _ _ (perform-Runs_quiet _ _ refl) λ u.
      quiet_bind-Runs _ _ _ _ _ (within-Runs _ _ _ _ _ (perform-Runs_quiet _ _ refl)) λ u.
        deferring-Runs _ _ _ _ _ refl (
          quiet_bind-Runs _ _ _ _ _ (each-Runs_quiet _ _ _ λ line. perform-Runs_quiet _ _ refl)
            λ u. each-Runs_quiet _ _ _ λ key. within-Runs _ _ _ _ _ (copy_file_quiet _ _ _))

  prepare_tools_quiet : RunsIn (prepare_tools b) [] []
  unfolding prepare_tools rootfs_command
  prepare_tools_quiet =
      quiet_bind-Runs _ _ _ _ _
        (within-Runs _ _ _ _ _ (Always-Runs _ _ _ Makes-quiet (prepare_all-Makes _)))
        λ m. within-Runs _ _ _ _ _ (perform-Runs_quiet _ _ refl)

  abbrev hook_command : HookScript → List Action
  hook_command h = in_rootfs none (b'/' ∷ hook_name h) [] ∷ []

  run_hook-Runs : (h : HookScript) → RunsIn (run_hook b h) (hook_command h) []
  unfolding run_hook rootfs_command
  run_hook-Runs h =
      quiet_bind-Runs _ _ _ _ _ (within-Runs _ _ _ _ _ (copy_file_quiet _ _ _))
        λ u. deferring-Runs _ _ _ _ _ refl (within-Runs _ _ _ _ _ (exec_in-Runs _ _))

  abbrev package_command : List Action
  package_command = in_rootfs none apt_get ((install_args ++ assume_yes) ++ b.project.packages) ∷ []

  -- The packages of the project, where it has any.
  abbrev package_commands : List Action
  package_commands = if not (is_empty b.project.packages) then package_command else []

  install_packages-Runs :
      RunsIn
        (install_packages b)
        (in_rootfs none apt_get (codes "update" ∷ []) ∷ package_commands)
        []
  unfolding install_packages
  install_packages-Runs =
      bind-Runs _ _ _ _ _ _ (within-Runs _ _ _ _ _ (exec_in-Runs _ _))
        λ u. when-Runs _ _ _ _ (within-Runs _ _ _ _ _ (exec_in-Runs _ _))

  -- The commands of a build, in their order, but for the last one.
  abbrev pub build_commands : List Action
  build_commands =
      debootstrap b
      ∷ in_rootfs (some preseed) (codes "debconf-set-selections") []
      ∷ in_rootfs none apt_get (install_args ++ mac_packages b.config.project.mac)
      ∷ ((in_rootfs none apt_get (codes "update" ∷ []) ∷ package_commands)
          ++ (concat_map hook_command b.project.hooks
              ++ (in_rootfs none apt_get (codes "update" ∷ [])
                  ∷ in_rootfs none apt_get (install_args ++ deb_ostree_deps)
                  ∷ [])))

  abbrev pub last_command : Action
  last_command = in_rootfs none (codes "ldd") (codes "/usr/bin/deb-ostree" ∷ [])

  wanted_version_quiet : (version : Bytes) → RunsIn (wanted_version version) [] []
  wanted_version_quiet [] = ask-Runs _ _ _ _ _ (λ s a. refl) λ page. pure-Runs _ _
  wanted_version_quiet (c ∷ version) = pure-Runs _ _

  inject_deb_ostree_quiet : RunsIn (inject_deb_ostree b) [] []
  unfolding inject_deb_ostree rootfs_command
  inject_deb_ostree_quiet =
      quiet_bind-Runs _ _ _ _ _ (ask-Runs _ _ _ _ _ (λ s a. refl) wanted_version_quiet)
        λ version. perform-Runs_quiet _ _ refl

  install_deb_ostree_deps-Runs :
      RunsIn
        (install_deb_ostree_deps b)
        (in_rootfs none apt_get (codes "update" ∷ [])
          ∷ in_rootfs none apt_get (install_args ++ deb_ostree_deps)
          ∷ [])
        (last_command ∷ [])
  unfolding install_deb_ostree_deps
  install_deb_ostree_deps-Runs =
      bind-Runs _ _ _ (_ ∷ []) (_ ∷ []) _ (within-Runs _ _ _ _ _ (exec_in-Runs _ _)) λ u.
        bind-Runs _ _ _ (_ ∷ []) [] _ (within-Runs _ _ _ _ _ (exec_in-Runs _ _))
          λ u. ignoring-Runs _ _ _ (exec_in-Runs _ _)

  generate_quiet : RunsIn (generate_deb_ostree_config b) [] []
  unfolding generate_deb_ostree_config rootfs_command
  generate_quiet =
      quiet_bind-Runs _ _ _ _ _ (within-Runs _ _ _ _ _ (perform-Runs_quiet _ _ refl))
        λ u. within-Runs _ _ _ _ _ (perform-Runs_quiet _ _ refl)

  prepare_dir_quiet : RunsIn (prepare_dir b) [] []
  unfolding prepare_dir rootfs_command
  prepare_dir_quiet =
      quiet_bind-Runs _ _ _ _ _ (within-Runs _ _ _ _ _ (perform-Runs_quiet _ _ refl))
        λ u. within-Runs _ _ _ _ _ (perform-Runs_quiet _ _ refl)

  install_sudo_stub_quiet : RunsIn (install_sudo_stub b) [] []
  unfolding install_sudo_stub rootfs_command
  install_sudo_stub_quiet =
      quiet_bind-Runs _ _ _ _ _ (perform-Runs_quiet _ _ refl)
        λ u. within-Runs _ _ _ _ _ (perform-Runs_quiet _ _ refl)

  run_debootstrap-Runs : RunsIn (run_debootstrap b) (debootstrap b ∷ []) []
  unfolding run_debootstrap rootfs_command is_tool_command equal
  run_debootstrap-Runs = within-Runs _ _ _ _ _ (perform-Runs _ _ refl)

  run_hooks-Runs : RunsIn (run_hooks b) (concat_map hook_command b.project.hooks) []
  unfolding run_hooks rootfs_command
  run_hooks-Runs = deferring-Runs _ _ _ _ _ refl (each-Runs _ _ _ b.project.hooks run_hook-Runs)

  finish_build-Runs :
      RunsIn
        (finish_build b)
        (concat_map hook_command b.project.hooks
          ++ (in_rootfs none apt_get (codes "update" ∷ [])
              ∷ in_rootfs none apt_get (install_args ++ deb_ostree_deps)
              ∷ []))
        (last_command ∷ [])
  unfolding finish_build
  finish_build-Runs =
      quiet_bind-Runs _ _ _ _ _
        (when-Runs_quiet _ _ _ (within-Runs _ _ _ _ _ (copy_tree_quiet _ _)))
        λ u. bind-Runs _ _ _ _ _ _ (within-Runs _ _ _ _ _ run_hooks-Runs) λ u.
          quiet_bind-Runs _ _ _ _ _ (within-Runs _ _ _ _ _ inject_deb_ostree_quiet) λ u.
            bind-Runs_quiet _ _ _ _ _ (within-Runs _ _ _ _ _ install_deb_ostree_deps-Runs)
              λ u. within-Runs _ _ _ _ _ generate_quiet

  -- Whatever the system answers, a build that succeeds has run exactly these commands in this order:
  -- debootstrap; inside the rootfs the preseed of debconf, the packages of exactly one access
  -- control system, an update, the packages of the project if it has any, its hooks in their order,
  -- an update, the libraries of deb-ostree; and behind them nothing or the `ldd` that only informs.
  -- A build that fails has run a first part of them. Not counted are `apt-get download`,
  -- `dpkg-deb --extract` and `cp -a` on the host, by which missing tools are fetched; no other
  -- command is run.
  pub build-Runs : Runs rootfs_command (build b) build_commands (last_command ∷ [])
  unfolding build seed_debconf install_mac_packages
  build-Runs = quiet_bind-Runs _ _ _ _ _ prepare_dir_quiet λ u.
      quiet_bind-Runs _ _ _ _ _ prepare_tools_quiet λ u.
        bind-Runs _ _ _ (_ ∷ []) _ _ (within-Runs _ _ _ _ _ run_debootstrap-Runs) λ u.
          bind-Runs _ _ _ (_ ∷ []) _ _ (within-Runs _ _ _ _ _ (exec_with_stdin-Runs _ _ _)) λ u.
            quiet_bind-Runs _ _ _ _ _ (within-Runs _ _ _ _ _ install_sudo_stub_quiet) λ u.
              quiet_bind-Runs _ _ _ _ _
                (when-Runs_quiet _ _ _ (within-Runs _ _ _ _ _ apply_extra_sources_quiet))
                λ u.
                  bind-Runs _ _ _ (_ ∷ []) _ _
                    (within-Runs _ _ _ _ _ (within-Runs _ _ _ _ _ (exec_in-Runs _ _)))
                    λ u.
                      bind-Runs _ _ _ _ _ _ (within-Runs _ _ _ _ _ install_packages-Runs)
                        λ u. finish_build-Runs
