-- ===== src/Rootfs/Files.antt =====
-- internal/rootfs/builder.go: copyFile, and the walk that copies includes.chroot.
use hacker_os_builder.Prelude.{ℕ, Bool, true, false, Option, none, some, [], ◌∷◌, Bytes}
use hacker_os_builder.Liveparse.{join_path}
use hacker_os_builder.System.{
  make_dirs, create_file, close_file, chmod, open_file, copy_data, symlink, Kind, dir_kind,
  file_kind, link_kind, other_kind, socket_kind, Visit, read_link, walk, Io, pure, throw, ask,
  ◌>>=◌, perform, deferring, each,
}
use hacker_os_builder.System.Paths.{dir_path}

unfoldable pub copy_file : Bytes → Bytes → ℕ → Io (Unit {0})
copy_file src dst mode = do
  u ← perform (make_dirs (dir_path dst) 0o755)
  u ← perform (open_file src)
  deferring (close_file src) (do
    u ← perform (create_file dst mode)
    deferring (close_file dst) (do u ← perform (copy_data dst src); perform (chmod dst mode)))

abbrev pub copy_link : Bytes → Option Bytes → Io (Unit {0})
copy_link dest none = throw []
copy_link dest (some target) = perform (symlink target dest)

-- By the kind of what is found. A device or a pipe is opened like a file.
abbrev pub copy_kind : Kind → Bytes → Bytes → ℕ → Io (Unit {0})
copy_kind dir_kind path dest mode = perform (make_dirs dest mode)
copy_kind link_kind path dest mode = ask (read_link path) (copy_link dest)
copy_kind file_kind path dest mode = copy_file path dest mode
copy_kind other_kind path dest mode = copy_file path dest mode
copy_kind socket_kind path dest mode = copy_file path dest mode

-- The root itself is left out.
abbrev pub copy_rel : Bytes → Bytes → Kind → ℕ → Bytes → Io (Unit {0})
copy_rel from to kind mode [] = pure tt
copy_rel from to kind mode (c ∷ rel) =
    copy_kind kind (join_path from (c ∷ rel)) (join_path to (c ∷ rel)) mode

abbrev pub copy_found : Bytes → Bytes → Kind → ℕ → Bytes → Bool → Io (Unit {0})
copy_found from to kind mode rel true = throw []
copy_found from to kind mode rel false = copy_rel from to kind mode rel

abbrev pub copy_visit : Bytes → Bytes → Visit → Io (Unit {0})
copy_visit from to v = copy_found from to v.kind v.mode v.rel v.failed

unfoldable pub copy_tree : Bytes → Bytes → Io (Unit {0})
copy_tree from to = ask (walk from) λ visits. each (copy_visit from to) visits
