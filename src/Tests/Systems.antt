-- ===== src/Tests/Systems.antt =====
-- The theorems about the sandbox, the tools and the rootfs at concrete inputs.
use hacker_os_builder.Prelude.{true, some, [], ◌∷◌, codes, All, ◌≡◌, refl}
use hacker_os_builder.Liveparse.{Project, HookScript}
use hacker_os_builder.System.{run, ◌>>=◌, within, deferring, ignoring, each, when}
use hacker_os_builder.System.Ends.{Ends}
use hacker_os_builder.System.Commands.{Runs}
use hacker_os_builder.System.Refusals.{FailsOnly}
use hacker_os_builder.Sandbox.{
  unshare, exec_internal, exec_in, exec_with_stdin, build_mount_and_chroot_script,
}
use hacker_os_builder.Sandbox.Quoting.{read_script, read_script-build}
use hacker_os_builder.Toolchain
use hacker_os_builder.Toolchain.{Manager, build_tools, tool_available, missing_tools, prepare_all}
use hacker_os_builder.Toolchain.Ready.{seen, IsReady, prepare_all-Ends}
use hacker_os_builder.Toolchain.Leftovers.{unremoved_dirs, IsKept, prepare_all-left}
use hacker_os_builder.Rootfs.{
  Builder, stub_path, hook_path, run_hook, run_hooks, build, finish_build, prepare_dir,
  prepare_tools, run_debootstrap, seed_debconf, install_sudo_stub, apply_extra_sources,
  install_mac_packages, install_packages, inject_deb_ostree, install_deb_ostree_deps,
  generate_deb_ostree_config,
}
use hacker_os_builder.Rootfs.Files.{copy_file, copy_tree}
use hacker_os_builder.Tests.Willing.{willing, is_done}
use hacker_os_builder.Rootfs.Runs.{rootfs_command}
use hacker_os_builder.Rootfs.Commands.{build_commands, last_command, build-Runs}
use hacker_os_builder.Rootfs.Cleanup.{not_removed, run_hooks-Ends}
use hacker_os_builder.Rootfs.Progress.{build-FailsOnly}
use hacker_os_builder.Tests.Projects.{config}

read_script-build_example :
    read_script (
      build_mount_and_chroot_script
        (codes "/w/it's")
        (codes "apt-get")
        (codes "a b" ∷ codes "';rm" ∷ []))
    ≡ some (codes "/w/it's", codes "apt-get" ∷ codes "a b" ∷ codes "';rm" ∷ [])
read_script-build_example =
    read_script-build (codes "/w/it's") (codes "apt-get") (codes "a b" ∷ codes "';rm" ∷ [])

abbrev manager : Manager
manager = Toolchain.new (codes "/w")

prepare_all-Ends_example :
    Ends seen
      (prepare_all manager)
      (λ m t. All (λ x. IsReady manager x.binary t) build_tools)
      (λ t. Unit {0})
      []
prepare_all-Ends_example = prepare_all-Ends manager

prepare_all-left_example :
    Ends unremoved_dirs (prepare_all manager) (λ m. All (IsKept manager)) (All (IsKept manager)) []
prepare_all-left_example = prepare_all-left manager

abbrev project : Project
project = record {
  root_dir = codes "/p";
  packages = codes "vim" ∷ [];
  hooks = record { name = codes "a.hook.chroot"; path = codes "/p/a.hook.chroot" } ∷ [];
  includes_chroot = codes "/p/includes.chroot";
  extra_sources = codes "deb http://x y z" ∷ [];
  extra_keys = [];
}

abbrev builder : Builder
builder = record {
  project = project;
  config = config;
  rootfs_dir = codes "/w/rootfs";
  work_dir = codes "/w";
  origin_refspec = [];
}

build-Runs_example :
    Runs rootfs_command (build builder) (build_commands builder) (last_command builder ∷ [])
build-Runs_example = build-Runs builder

run_hooks-Ends_example :
    Ends not_removed
      (run_hooks builder)
      (λ u t. t ≡ [])
      (λ t. (h : HookScript) × All (λ path. path ≡ hook_path builder h) t)
      (stub_path builder ∷ [])
run_hooks-Ends_example = run_hooks-Ends builder

build-FailsOnly_example : FailsOnly (build builder)
build-FailsOnly_example = build-FailsOnly builder

-- With every call answered, the build reaches its end.
build_runs : is_done (run willing (build builder)).1 ≡ true
unfolding run ◌>>=◌ within deferring ignoring each when build finish_build prepare_dir prepare_tools
    prepare_all missing_tools tool_available run_debootstrap seed_debconf exec_with_stdin exec_in
    exec_internal unshare install_sudo_stub apply_extra_sources install_mac_packages
    install_packages copy_tree run_hooks run_hook copy_file inject_deb_ostree
    install_deb_ostree_deps generate_deb_ostree_config
build_runs = refl
