-- ===== src/Isobuild/Installer.antt =====
-- internal/isobuild/installer.go: the graphical installer in a rootfs.
use hacker_os_builder.Prelude.{ℕ, List, [], ◌∷◌, ◌++◌, Bytes, codes}
use hacker_os_builder.Liveparse.{join_path}
use hacker_os_builder.System.{
  make_dirs, remove, write_file, symlink, Io, ◌>>=◌, perform, try_call, within, each,
}
use hacker_os_builder.Sandbox.{exec_env}
use hacker_os_builder.Toolchain
use hacker_os_builder.Rootfs.Contents.{install_args, apt_get}
use hacker_os_builder.Isobuild.Calamares.{
  calamares_settings_conf, calamares_welcome_conf, calamares_locale_conf, calamares_keyboard_conf,
  calamares_partition_conf, calamares_users_conf, calamares_unpackfs_conf, calamares_mount_conf,
  calamares_machineid_conf, calamares_fstab_conf, calamares_bootloader_conf, calamares_umount_conf,
  calamares_shellprocess_conf, calamares_branding_desc, override_conf, bash_profile, xinit_script,
  openbox_rc,
}

abbrev pub installer_packages : List Bytes
installer_packages =
    codes "calamares"
    ∷ codes "xserver-xorg"
    ∷ codes "xinit"
    ∷ codes "openbox"
    ∷ codes "dbus-x11"
    ∷ codes "policykit-1"
    ∷ codes "network-manager"
    ∷ codes "parted"
    ∷ codes "gdisk"
    ∷ codes "dosfstools"
    ∷ codes "os-prober"
    ∷ []

abbrev pub join_paths : Bytes → List Bytes → Bytes
join_paths dir [] = dir
join_paths dir (name ∷ names) = join_paths (join_path dir name) names

abbrev pub calamares_dir : Bytes → Bytes
calamares_dir rootfs_dir = join_paths rootfs_dir (codes "etc" ∷ codes "calamares" ∷ [])

abbrev pub modules_dir : Bytes → Bytes
modules_dir rootfs_dir = join_path (calamares_dir rootfs_dir) (codes "modules")

abbrev pub branding_dir : Bytes → Bytes
branding_dir rootfs_dir =
    join_paths (calamares_dir rootfs_dir) (codes "branding" ∷ codes "hackeros" ∷ [])

-- The files and their contents.
abbrev pub calamares_files : Bytes → List (Bytes × Bytes)
calamares_files rootfs_dir =
    (join_path (calamares_dir rootfs_dir) (codes "settings.conf"), calamares_settings_conf)
    ∷ (join_path (modules_dir rootfs_dir) (codes "welcome.conf"), calamares_welcome_conf)
    ∷ (join_path (modules_dir rootfs_dir) (codes "locale.conf"), calamares_locale_conf)
    ∷ (join_path (modules_dir rootfs_dir) (codes "keyboard.conf"), calamares_keyboard_conf)
    ∷ (join_path (modules_dir rootfs_dir) (codes "partition.conf"), calamares_partition_conf)
    ∷ (join_path (modules_dir rootfs_dir) (codes "users.conf"), calamares_users_conf)
    ∷ (join_path (modules_dir rootfs_dir) (codes "unpackfs.conf"), calamares_unpackfs_conf)
    ∷ (join_path (modules_dir rootfs_dir) (codes "mount.conf"), calamares_mount_conf)
    ∷ (join_path (modules_dir rootfs_dir) (codes "machineid.conf"), calamares_machineid_conf)
    ∷ (join_path (modules_dir rootfs_dir) (codes "fstab.conf"), calamares_fstab_conf)
    ∷ (join_path (modules_dir rootfs_dir) (codes "bootloader.conf"), calamares_bootloader_conf)
    ∷ (join_path (modules_dir rootfs_dir) (codes "umount.conf"), calamares_umount_conf)
    ∷ (join_path (modules_dir rootfs_dir) (codes "shellprocess.conf"), calamares_shellprocess_conf)
    ∷ (join_path (branding_dir rootfs_dir) (codes "branding.desc"), calamares_branding_desc)
    ∷ []

abbrev pub write_conf : Bytes × Bytes → Io (Unit {0})
write_conf (path, content) = within (codes "zapis") (perform (write_file path content 0o644))

-- The order in which Go walks a map is not fixed: `arrange` gives it.
abbrev pub Arrange : Type 0
Arrange = List (Bytes × Bytes) → List (Bytes × Bytes)

unfoldable pub write_calamares_config : Arrange → Bytes → Io (Unit {0})
write_calamares_config arrange rootfs_dir = do
  u ← perform (make_dirs (modules_dir rootfs_dir) 0o755)
  u ← perform (make_dirs (branding_dir rootfs_dir) 0o755)
  each write_conf (arrange (calamares_files rootfs_dir))

-- A directory, and a file in it.
abbrev pub write_in : Bytes → Bytes → Bytes → ℕ → Io (Unit {0})
write_in dir name content mode = do
  u ← perform (make_dirs dir 0o755)
  perform (write_file (join_path dir name) content mode)

abbrev pub systemd_dir : Bytes → Bytes
systemd_dir rootfs_dir = join_paths rootfs_dir (codes "etc" ∷ codes "systemd" ∷ codes "system" ∷ [])

-- The last link is removed before it is made, with no error.
unfoldable pub write_installer_autostart : Bytes → Io (Unit {0})
write_installer_autostart rootfs_dir = do
  let override_dir = join_path (systemd_dir rootfs_dir) (codes "getty@tty1.service.d")
  let sbin = join_paths rootfs_dir (codes "usr" ∷ codes "local" ∷ codes "sbin" ∷ [])
  let openbox_dir = join_paths rootfs_dir (codes "etc" ∷ codes "hackeros-installer" ∷ [])
  let target = join_path (systemd_dir rootfs_dir) (codes "default.target")
  u ← write_in override_dir (codes "autologin.conf") override_conf 0o644
  u ← write_in (join_path rootfs_dir (codes "root")) (codes ".bash_profile") bash_profile 0o644
  u ← write_in sbin (codes "hackeros-installer-xinit") xinit_script 0o755
  u ← write_in openbox_dir (codes "openbox-rc.xml") openbox_rc 0o644
  u ← perform (make_dirs (systemd_dir rootfs_dir) 0o755)
  u ← try_call (remove target)
  within (codes "ustawienie default.target")
      (perform (symlink (codes "/lib/systemd/system/multi-user.target") target))

-- Behind the environment of the tools, which is put behind that of the sandbox.
unfoldable pub install_in : Arrange → Bytes → List Bytes → Io (Unit {0})
install_in arrange rootfs_dir env = do
  u ← within (codes "apt-get update") (exec_env rootfs_dir env apt_get (codes "update" ∷ []))
  u ←
      within (codes "apt-get install (instalator)")
        (exec_env rootfs_dir env apt_get (install_args ++ installer_packages))
  u ← within (codes "konfiguracja calamares") (write_calamares_config arrange rootfs_dir)
  within (codes "autostart instalatora") (write_installer_autostart rootfs_dir)

unfoldable pub inject_installer : Arrange → Bytes → Bytes → Io (Unit {0})
inject_installer arrange rootfs_dir work_dir =
    Toolchain.env (Toolchain.new work_dir) >>= install_in arrange rootfs_dir
