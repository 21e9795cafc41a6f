-- ===== src/Isobuild/Commands.antt =====
-- How an ISO is put together.
use hacker_os_builder.Prelude.{
  ◌++◌, if◌then◌else◌, not, Bool, true, false, List, [], ◌∷◌, Bytes, codes, equal,
}
use hacker_os_builder.Liveparse.{join_path}
use hacker_os_builder.System.{
  remove, write_file, symlink, link, rename, Action, remove_all, create_file, exec, Io,
}
use hacker_os_builder.System.Parts.{concat_map}
use hacker_os_builder.System.Commands.{Runs}
use hacker_os_builder.Toolchain.{env}
use hacker_os_builder.Isobuild.Calamares.{override_conf, bash_profile, xinit_script, openbox_rc}
use hacker_os_builder.Isobuild.Installer.{join_paths, calamares_files, Arrange}
use hacker_os_builder.Isobuild.{
  grub_dir, grub_cfg, BuildParams, mksquashfs, grub_mkrescue, iso_tree, live_dir,
}

-- What is removed, created, written, linked or renamed, and the commands outside the sandbox.
pub iso_call : Action → Bool
iso_call (remove_all path) = true
iso_call (remove path) = true
iso_call (create_file path mode) = true
iso_call (write_file path content mode) = true
iso_call (symlink target path) = true
iso_call (link old path) = true
iso_call (rename old path) = true
iso_call (exec dir env stdin name args) = not (equal name (codes "unshare"))
iso_call _ = false

abbrev IsoRuns : {V : Type 0} → Io V → List Action → Type 0
IsoRuns m calls = Runs iso_call m calls []

abbrev conf_call : Bytes × Bytes → List Action
conf_call (path, content) = write_file path content 0o644 ∷ []

abbrev calamares_calls : Arrange → Bytes → List Action
calamares_calls arrange root = concat_map conf_call (arrange (calamares_files root))

-- The files for the start of the installer, and the link of default.target.
abbrev autostart_calls : Bytes → List Action
autostart_calls root =
    write_file
      (join_paths root (
        codes "etc"
        ∷ codes "systemd"
        ∷ codes "system"
        ∷ codes "getty@tty1.service.d"
        ∷ codes "autologin.conf"
        ∷ []))
      override_conf 0o644
    ∷ write_file (join_paths root (codes "root" ∷ codes ".bash_profile" ∷ [])) bash_profile 0o644
    ∷ write_file
        (join_paths root
          (codes "usr" ∷ codes "local" ∷ codes "sbin" ∷ codes "hackeros-installer-xinit" ∷ []))
        xinit_script 0o755
    ∷ write_file
        (join_paths root (codes "etc" ∷ codes "hackeros-installer" ∷ codes "openbox-rc.xml" ∷ []))
        openbox_rc 0o644
    ∷ remove (
        join_paths root
          (codes "etc" ∷ codes "systemd" ∷ codes "system" ∷ codes "default.target" ∷ []))
    ∷ symlink (codes "/lib/systemd/system/multi-user.target") (
        join_paths root
          (codes "etc" ∷ codes "systemd" ∷ codes "system" ∷ codes "default.target" ∷ []))
    ∷ []

abbrev installer_calls : Arrange → Bytes → List Action
installer_calls arrange root = calamares_calls arrange root ++ autostart_calls root

module _ (arrange : Arrange) (p : BuildParams) where
  -- The path of a file beside the squashed rootfs.
  abbrev in_live : Bytes → Bytes
  in_live name = join_path (live_dir (iso_tree p)) name

  abbrev pub iso_calls : List Action
  iso_calls =
      remove_all (iso_tree p)
      ∷ ((if not p.skip_installer then installer_calls arrange p.rootfs_dir else [])
          ++ (mksquashfs p.rootfs_dir (iso_tree p)
              ∷ create_file (in_live (codes "vmlinuz")) 0o666
              ∷ create_file (in_live (codes "initrd.img")) 0o666
              ∷ write_file (join_path (grub_dir (iso_tree p)) (codes "grub.cfg"))
                  (grub_cfg p.volume_name) 0o644
              ∷ grub_mkrescue (iso_tree p) p.output_iso p.volume_name
              ∷ []))
