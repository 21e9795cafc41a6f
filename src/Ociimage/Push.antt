-- ===== src/Ociimage/Push.antt =====
-- internal/ociimage/push.go: a rootfs is packed into one layer and pushed.
use hacker_os_builder.Prelude.{
  ℕ, Bool, true, false, Option, none, some, [], ◌∷◌, ◌++◌, Bytes, codes,
}
use hacker_os_builder.Liveparse.{join_path}
use hacker_os_builder.System.{
  remove, create_file, close_file, open_file, copy_data, write_header, parse_reference, push_image,
  make_image, EntryType, type_dir, type_reg, type_symlink, type_other, TarEntry, Kind, dir_kind,
  file_kind, link_kind, other_kind, socket_kind, Visit, walk, read_link, Io, pure, throw, ask,
  ◌>>=◌, perform, within, deferring, each,
}

pub record BuildParams : Type 0 where
  pub rootfs_dir : Bytes
  pub repository : Bytes
  pub tag : Bytes
  pub token : Bytes
  pub work_dir : Bytes
  pub insecure : Bool

abbrev pub type_of : Kind → EntryType
type_of dir_kind = type_dir
type_of file_kind = type_reg
type_of link_kind = type_symlink
type_of other_kind = type_other
type_of socket_kind = type_other

-- A directory gets a slash behind its name.
abbrev pub name_of : Kind → Bytes → Bytes
name_of dir_kind rel = rel ++ b'/' ∷ []
name_of file_kind rel = rel
name_of link_kind rel = rel
name_of other_kind rel = rel
name_of socket_kind rel = rel

-- The header of `tar.FileInfoHeader` with the name relative to the root. `mode` has the permissions and the bits
-- of setuid, setgid and sticky as a tar header has them.
abbrev pub header_of : Kind → Bytes → ℕ → Bytes → TarEntry
header_of kind rel mode target = record {
  name = name_of kind rel;
  entry_type = type_of kind;
  mode = mode;
  linkname = target;
}

-- The content is written for a regular file only.
abbrev pub add_content : Bytes → Bytes → Kind → Io (Unit {0})
add_content layer path file_kind = do
  u ← perform (open_file path)
  deferring (close_file path) (perform (copy_data layer path))
add_content layer path dir_kind = pure tt
add_content layer path link_kind = pure tt
add_content layer path other_kind = pure tt
add_content layer path socket_kind = pure tt

-- `tar.FileInfoHeader` returns an error for a socket.
abbrev pub info_header : Kind → Bytes → ℕ → Bytes → Io TarEntry
info_header dir_kind rel mode target = pure (header_of dir_kind rel mode target)
info_header file_kind rel mode target = pure (header_of file_kind rel mode target)
info_header link_kind rel mode target = pure (header_of link_kind rel mode target)
info_header other_kind rel mode target = pure (header_of other_kind rel mode target)
info_header socket_kind rel mode target = throw []

abbrev pub add_entry : Bytes → Bytes → Bytes → Kind → ℕ → Bytes → Io (Unit {0})
add_entry layer root rel kind mode target = do
  header ← info_header kind rel mode target
  u ← perform (write_header layer header)
  add_content layer (join_path root rel) kind

abbrev pub target_of : Option Bytes → Io Bytes
target_of none = throw []
target_of (some target) = pure target

abbrev pub link_target : Bytes → Kind → Io Bytes
link_target path link_kind = ask (read_link path) target_of
link_target path dir_kind = pure []
link_target path file_kind = pure []
link_target path other_kind = pure []
link_target path socket_kind = pure []

abbrev pub pack_rel : Bytes → Bytes → Kind → ℕ → Bytes → Io (Unit {0})
pack_rel layer root kind mode [] = pure tt
pack_rel layer root kind mode (c ∷ rel) =
    link_target (join_path root (c ∷ rel)) kind >>= add_entry layer root (c ∷ rel) kind mode

abbrev pub pack_found : Bytes → Bytes → Kind → ℕ → Bytes → Bool → Io (Unit {0})
pack_found layer root kind mode rel true = throw []
pack_found layer root kind mode rel false = pack_rel layer root kind mode rel

abbrev pub pack_visit : Bytes → Bytes → Visit → Io (Unit {0})
pack_visit layer root v = pack_found layer root v.kind v.mode v.rel v.failed

-- The errors of the deferred Close calls, which flush the archive, are dropped.
unfoldable pub create_layer_tarball : Bytes → Bytes → Io (Unit {0})
create_layer_tarball rootfs_dir layer = do
  u ← perform (create_file layer 0o666)
  deferring (close_file layer) (ask (walk rootfs_dir) (each (pack_visit layer rootfs_dir)))

abbrev pub layer_path : BuildParams → Bytes
layer_path p = join_path p.work_dir (codes "layer.tar.gz")

unfoldable pub push_layer : BuildParams → Io Bytes
push_layer p = do
  let reference = p.repository ++ b':' ∷ p.tag
  u ← within (codes "budowanie obrazu OCI") (perform (make_image (layer_path p)))
  u ← within (codes "nieprawidlowa referencja obrazu") (perform (parse_reference reference))
  u ← within (codes "push nie powiodl sie") (perform (push_image reference p.token p.insecure))
  pure reference

unfoldable pub build_and_push : BuildParams → Io Bytes
build_and_push p = do
  u ← within (codes "tworzenie warstwy tar") (create_layer_tarball p.rootfs_dir (layer_path p))
  deferring (remove (layer_path p)) (push_layer p)
