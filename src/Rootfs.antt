-- ===== src/Rootfs.antt =====
-- internal/rootfs/builder.go and debostree_deps.go: the rootfs of an image, step by step.
pub mod Contents
pub mod Files
pub mod Runs
pub mod Commands
pub mod Cleanup
pub mod Progress
use hacker_os_builder.Prelude.{
  ℕ, Bool, true, false, not, Option, none, some, List, [], ◌∷◌, ◌++◌, if◌then◌else◌, Bytes, codes,
  is_empty,
}
use hacker_os_builder.Config.{Config}
use hacker_os_builder.Liveparse.{Project, HookScript, join_path}
use hacker_os_builder.Hkgen.{DebOstreeConfigParams}
use hacker_os_builder.Download.Version.{latest_deb_ostree_version, releases_page_url}
use hacker_os_builder.System.{
  Action, make_dirs, remove, remove_all, write_file, create_file, write_text, close_file, set_env,
  exec, download, write_deb_ostree_config, act, get_env, fetch, Io, pure, throw, ask, ◌>>=◌,
  perform, try_call, when, within, deferring, ignoring, each,
}
use hacker_os_builder.System.Paths.{dir_path, base_path}
use hacker_os_builder.Sandbox.{exec_in, exec_with_stdin}
use hacker_os_builder.Toolchain
use hacker_os_builder.Toolchain.{prepare_all}
use hacker_os_builder.Rootfs.Contents.{
  mac_packages, preseed, deb_ostree_deps, install_args, assume_yes, apt_get, sudo_stub,
}
use hacker_os_builder.Rootfs.Files.{copy_file, copy_tree}

pub record Builder : Type 0 where
  pub project : Project
  pub config : Config
  pub rootfs_dir : Bytes
  pub work_dir : Bytes
  pub origin_refspec : Bytes

-- sandboxExec
abbrev pub sandbox_exec : Builder → Bytes → List Bytes → Io (Unit {0})
sandbox_exec b command args = exec_in b.rootfs_dir command args

unfoldable pub install_mac_packages : Builder → Io (Unit {0})
install_mac_packages b =
    within (codes "instalacja pakietow")
      (sandbox_exec b apt_get (install_args ++ mac_packages b.config.project.mac))

unfoldable pub seed_debconf : Builder → Io (Unit {0})
seed_debconf b = exec_with_stdin b.rootfs_dir preseed (codes "debconf-set-selections") []

unfoldable pub prepare_dir : Builder → Io (Unit {0})
prepare_dir b = do
  u ← within (codes "czyszczenie") (perform (remove_all b.rootfs_dir))
  within (codes "tworzenie") (perform (make_dirs b.rootfs_dir 0o755))

abbrev pub debootstrap : Builder → Action
debootstrap b = exec [] [] none (codes "debootstrap") (
    codes "--arch=amd64"
    ∷ b.config.release
    ∷ b.rootfs_dir
    ∷ codes "http://deb.debian.org/debian"
    ∷ [])

unfoldable pub run_debootstrap : Builder → Io (Unit {0})
run_debootstrap b = within (codes "komenda nie powiodla sie") (perform (debootstrap b))

abbrev pub stub_dir : Builder → Bytes
stub_dir b =
    join_path (join_path (join_path b.rootfs_dir (codes "usr")) (codes "local")) (codes "sbin")

abbrev pub stub_path : Builder → Bytes
stub_path b = join_path (stub_dir b) (codes "sudo")

unfoldable pub install_sudo_stub : Builder → Io (Unit {0})
install_sudo_stub b = do
  u ← perform (make_dirs (stub_dir b) 0o755)
  within (codes "zapis sudo-stub") (perform (write_file (stub_path b) sudo_stub 0o755))

unfoldable pub install_packages : Builder → Io (Unit {0})
install_packages b = do
  u ← within (codes "apt-get update") (sandbox_exec b apt_get (codes "update" ∷ []))
  when (not (is_empty b.project.packages)) (
      within (codes "apt-get install")
        (sandbox_exec b apt_get ((install_args ++ assume_yes) ++ b.project.packages)))

abbrev pub list_path : Builder → Bytes
list_path b =
    join_path
      (join_path (join_path (join_path b.rootfs_dir (codes "etc")) (codes "apt"))
        (codes "sources.list.d"))
      (codes "hackeros-extra.list")

abbrev pub key_path : Builder → Bytes → Bytes
key_path b key =
    join_path
      (join_path (join_path (join_path b.rootfs_dir (codes "etc")) (codes "apt"))
        (codes "trusted.gpg.d"))
      (base_path key)

abbrev pub copy_key : Builder → Bytes → Io (Unit {0})
copy_key b key = within (codes "kopiowanie klucza GPG") (copy_file key (key_path b key) 0o644)

abbrev pub write_line : Bytes → Bytes → Io (Unit {0})
write_line path line = perform (write_text path (line ++ b'\n' ∷ []))

unfoldable pub apply_extra_sources : Builder → Io (Unit {0})
apply_extra_sources b = do
  u ← perform (make_dirs (dir_path (list_path b)) 0o755)
  u ← within (codes "tworzenie") (perform (create_file (list_path b) 0o666))
  deferring (close_file (list_path b)) (do
    u ← each (write_line (list_path b)) b.project.extra_sources
    each (copy_key b) b.project.extra_keys)

abbrev pub hook_name : HookScript → Bytes
hook_name h = codes "tmp-hackeros-hook-" ++ h.name

abbrev pub hook_path : Builder → HookScript → Bytes
hook_path b h = join_path b.rootfs_dir (hook_name h)

-- The copy of a hook is removed behind it, whether it succeeds or fails.
unfoldable pub run_hook : Builder → HookScript → Io (Unit {0})
run_hook b h = do
  u ← within (codes "kopiowanie hooka") (copy_file h.path (hook_path b h) 0o755)
  deferring (remove (hook_path b h))
      (within (codes "wykonanie hooka") (sandbox_exec b (b'/' ∷ hook_name h) []))

unfoldable pub run_hooks : Builder → Io (Unit {0})
run_hooks b = deferring (remove (stub_path b)) (each (run_hook b) b.project.hooks)

abbrev pub deb_ostree_path : Builder → Bytes
deb_ostree_path b =
    join_path (join_path (join_path b.rootfs_dir (codes "usr")) (codes "bin")) (codes "deb-ostree")

abbrev pub wanted_version : Bytes → Io Bytes
wanted_version [] = ask (fetch releases_page_url) λ page. pure (latest_deb_ostree_version page)
wanted_version (c ∷ version) = pure (c ∷ version)

unfoldable pub inject_deb_ostree : Builder → Io (Unit {0})
inject_deb_ostree b = do
  version ← ask (get_env (codes "DEBOSTREE_VERSION")) wanted_version
  perform (download version (deb_ostree_path b))

-- An error of `ldd` is only warned of.
unfoldable pub install_deb_ostree_deps : Builder → Io (Unit {0})
install_deb_ostree_deps b = do
  u ←
      within (codes "apt-get update przed instalacja deb-ostree deps")
        (sandbox_exec b apt_get (codes "update" ∷ []))
  u ←
      within (codes "instalacja bibliotek deb-ostree")
        (sandbox_exec b apt_get (install_args ++ deb_ostree_deps))
  ignoring (sandbox_exec b (codes "ldd") (codes "/usr/bin/deb-ostree" ∷ []))

abbrev pub config_path : Builder → Bytes
config_path b =
    join_path (join_path (join_path b.rootfs_dir (codes "etc")) (codes "deb-ostree"))
      (codes "deb-ostree.hk")

abbrev pub config_params : Builder → DebOstreeConfigParams
config_params b = record {
  sysroot_path = [];
  ostree_repo_path = [];
  os_name = codes "debian";
  overlay_work_dir = [];
  apt_lists_path = [];
  origin_refspec = b.origin_refspec;
}

unfoldable pub generate_deb_ostree_config : Builder → Io (Unit {0})
generate_deb_ostree_config b = do
  u ← within (codes "tworzenie katalogu") (perform (make_dirs (dir_path (config_path b)) 0o755))
  within (codes "zapis") (perform (write_deb_ostree_config (config_path b) (config_params b)))

-- The PATH of the process, with toolchain-bin in front.
unfoldable pub prepare_tools : Builder → Io (Unit {0})
prepare_tools b = do
  m ← within (codes "toolchain") (prepare_all (Toolchain.new b.work_dir))
  within (codes "ustawienie PATH toolchain") (perform (set_env (codes "PATH") m.prepared_path))

-- The end of Build, from includes.chroot on.
unfoldable pub finish_build : Builder → Io (Unit {0})
finish_build b = do
  u ←
      when (not (is_empty b.project.includes_chroot))
        (within (codes "includes.chroot") (copy_tree b.project.includes_chroot b.rootfs_dir))
  u ← within (codes "hooks") (run_hooks b)
  u ← within (codes "deb-ostree injection") (inject_deb_ostree b)
  u ← within (codes "deb-ostree biblioteki dynamiczne") (install_deb_ostree_deps b)
  within (codes "generowanie deb-ostree.hk") (generate_deb_ostree_config b)

unfoldable pub build : Builder → Io (Unit {0})
build b = do
  u ← prepare_dir b
  u ← prepare_tools b
  u ← within (codes "debootstrap") (run_debootstrap b)
  u ← within (codes "preseed debconf") (seed_debconf b)
  u ← within (codes "sudo stub") (install_sudo_stub b)
  u ←
      when (not (is_empty b.project.extra_sources))
        (within (codes "extra sources") (apply_extra_sources b))
  u ← within (codes "instalacja MAC") (install_mac_packages b)
  u ← within (codes "instalacja pakietow") (install_packages b)
  finish_build b
