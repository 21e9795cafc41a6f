-- ===== src/Isobuild.antt =====
-- internal/isobuild/builder.go: the ISO of a rootfs.
pub mod Calamares
pub mod Installer
pub mod Commands
pub mod Environment
use hacker_os_builder.Prelude.{
  ℕ, Bool, true, false, not, Option, none, some, List, [], ◌∷◌, ◌++◌, if◌then◌else◌, Bytes, codes,
  text_lines,
}
use hacker_os_builder.Liveparse.{join_path}
use hacker_os_builder.System.{
  Action, make_dirs, remove_all, write_file, create_file, close_file, open_file, copy_data, exec,
  glob, Io, pure, throw, ask, ◌>>=◌, perform, when, within, deferring,
}
use hacker_os_builder.System.Paths.{dir_path}
use hacker_os_builder.Isobuild.Installer.{Arrange, inject_installer}

pub record BuildParams : Type 0 where
  pub rootfs_dir : Bytes
  pub output_iso : Bytes
  pub work_dir : Bytes
  pub volume_name : Bytes
  pub skip_installer : Bool

abbrev pub exclude_from_squash : List Bytes
exclude_from_squash = codes "proc" ∷ codes "sys" ∷ codes "dev" ∷ codes "tmp" ∷ codes "run" ∷ []

-- `-e` and the name, for each
abbrev pub exclusions : List Bytes → List Bytes
exclusions [] = []
exclusions (name ∷ names) = codes "-e" ∷ name ∷ exclusions names

abbrev pub live_dir : Bytes → Bytes
live_dir iso_tree = join_path iso_tree (codes "live")

-- util.RunStreaming with no directory
abbrev pub run_streaming : Bytes → List Bytes → Action
run_streaming name args = exec [] [] none name args

abbrev pub mksquashfs : Bytes → Bytes → Action
mksquashfs rootfs_dir iso_tree = run_streaming (codes "mksquashfs") (
    rootfs_dir
    ∷ join_path (live_dir iso_tree) (codes "filesystem.squashfs")
    ∷ codes "-comp"
    ∷ codes "xz"
    ∷ codes "-noappend"
    ∷ exclusions exclude_from_squash)

unfoldable pub build_squashfs : Bytes → Bytes → Io (Unit {0})
build_squashfs rootfs_dir iso_tree = do
  u ← perform (make_dirs (live_dir iso_tree) 0o755)
  within (codes "komenda nie powiodla sie") (perform (mksquashfs rootfs_dir iso_tree))

-- The last of the matches, in the order of filepath.Glob.
abbrev pub last_match : List Bytes → Io Bytes
last_match [] = throw (codes "brak plikow odpowiadajacych wzorcowi" ∷ [])
last_match (path ∷ []) = pure path
last_match (path ∷ path' ∷ paths) = last_match (path' ∷ paths)

abbrev pub matches_of : Option (List Bytes) → Io Bytes
matches_of none = throw []
matches_of (some paths) = last_match paths

unfoldable pub find_glob : Bytes → Bytes → Io Bytes
find_glob dir pattern = ask (glob dir pattern) matches_of

unfoldable pub copy_file : Bytes → Bytes → Io (Unit {0})
copy_file src dst = do
  u ← perform (open_file src)
  deferring (close_file src) (do
    u ← perform (create_file dst 0o666)
    deferring (close_file dst) (perform (copy_data dst src)))

unfoldable pub copy_kernel_and_initrd : Bytes → Bytes → Io (Unit {0})
copy_kernel_and_initrd rootfs_dir iso_tree = do
  let boot_dir = join_path rootfs_dir (codes "boot")
  kernel ← within (codes "nie znaleziono jadra") (find_glob boot_dir (codes "vmlinuz-*"))
  initrd ← within (codes "nie znaleziono initrd") (find_glob boot_dir (codes "initrd.img-*"))
  u ←
      within (codes "kopiowanie jadra")
        (copy_file kernel (join_path (live_dir iso_tree) (codes "vmlinuz")))
  within (codes "kopiowanie initrd")
      (copy_file initrd (join_path (live_dir iso_tree) (codes "initrd.img")))

abbrev pub grub_cfg : Bytes → Bytes
grub_cfg volume_name =
    codes "set timeout=5\nset default=0\n\nmenuentry \""
    ++ (volume_name
        ++ (text_lines (
              "\" {" ∷ "    linux /live/vmlinuz boot=live quiet splash"
              ∷ "    initrd /live/initrd.img" ∷ "}" ∷ "" ∷ [])
            ++ (codes "menuentry \""
                ++ (volume_name
                    ++ text_lines (
                        " (safe graphics)\" {" ∷ "    linux /live/vmlinuz boot=live quiet nomodeset"
                        ∷ "    initrd /live/initrd.img" ∷ "}" ∷ [])))))

abbrev pub grub_dir : Bytes → Bytes
grub_dir iso_tree = join_path (join_path iso_tree (codes "boot")) (codes "grub")

unfoldable pub write_grub_config : Bytes → Bytes → Io (Unit {0})
write_grub_config iso_tree volume_name = do
  u ← perform (make_dirs (grub_dir iso_tree) 0o755)
  perform
      (write_file (join_path (grub_dir iso_tree) (codes "grub.cfg")) (grub_cfg volume_name) 0o644)

abbrev pub grub_mkrescue : Bytes → Bytes → Bytes → Action
grub_mkrescue iso_tree output_iso volume_name =
    run_streaming (codes "grub-mkrescue")
      (codes "-o" ∷ output_iso ∷ iso_tree ∷ codes "--" ∷ codes "-volid" ∷ volume_name ∷ [])

unfoldable pub run_grub_mkrescue : Bytes → Bytes → Bytes → Io (Unit {0})
run_grub_mkrescue iso_tree output_iso volume_name = do
  u ← perform (make_dirs (dir_path output_iso) 0o755)
  within (codes "komenda nie powiodla sie")
      (perform (grub_mkrescue iso_tree output_iso volume_name))

abbrev pub iso_tree : BuildParams → Bytes
iso_tree p = join_path p.work_dir (codes "iso-tree")

unfoldable pub build : Arrange → BuildParams → Io (Unit {0})
build arrange p = do
  u ← within (codes "czyszczenie") (perform (remove_all (iso_tree p)))
  u ←
      when (not p.skip_installer)
        (within (codes "instalator GUI") (inject_installer arrange p.rootfs_dir p.work_dir))
  u ← within (codes "squashfs") (build_squashfs p.rootfs_dir (iso_tree p))
  u ← within (codes "kernel/initrd") (copy_kernel_and_initrd p.rootfs_dir (iso_tree p))
  u ← within (codes "grub config") (write_grub_config (iso_tree p) p.volume_name)
  within (codes "grub-mkrescue") (run_grub_mkrescue (iso_tree p) p.output_iso p.volume_name)
