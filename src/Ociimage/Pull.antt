-- ===== src/Ociimage/Pull.antt =====
-- internal/ociimage/pull.go: an image is fetched and its layers are unpacked into a directory.
use hacker_os_builder.Prelude.{
  ◌+◌, ◌*◌, ◌/◌, ◌^◌, ℕ, ◌%◌, Bool, true, false, Option, none, some, List, [], ◌∷◌, ◌++◌,
  if◌then◌else◌, Bytes, codes, equal,
}
use hacker_os_builder.Text.Search.{has_prefix, trim_prefix}
use hacker_os_builder.Text.Pieces.{split}
use hacker_os_builder.System.{
  make_dirs, remove, remove_all, create_file, write_text, close_file, symlink, link,
  parse_reference, fetch_image, EntryType, type_dir, type_reg, type_symlink, type_link, type_other,
  TarEntry, Archive, DirEntry, DirReply, no_dir, dir_error, dir_entries, read_dir, read_layers, Io,
  pure, throw, ask, ◌>>=◌, perform, try_call, within, deferring, each,
}
use hacker_os_builder.System.Components.{is_rooted, join_to, render, dir_parts, base_name}

pub record PullParams : Type 0 where
  pub repository : Bytes
  pub tag : Bytes
  pub token : Bytes
  pub dest_dir : Bytes
  pub insecure : Bool

-- The permissions that the system is asked for by `os.FileMode(hdr.Mode)`, a word of 32 bits:
-- os.MkdirAll and os.OpenFile hand on the lower nine bits, and the bits 20, 22 and 23 of
-- os.FileMode as sticky, setgid and setuid. In a tar header these are the bits 9, 10 and 11.
abbrev pub perm_of : ℕ → ℕ
perm_of mode =
    let m = mode % 2 ^ 32 in
    m % 512 + 0o1000 * (m / 2 ^ 20 % 2) + 0o2000 * (m / 2 ^ 22 % 2) + 0o4000 * (m / 2 ^ 23 % 2)

-- A cleaned path below `dest` as text.
abbrev pub at : Bytes → List Bytes → Bytes
at dest ps = render (is_rooted dest) ps

-- `filepath.Dir` of a cleaned path.
abbrev pub parent : List Bytes → List Bytes
parent [] = []
parent (p ∷ ps) = ps

abbrev pub ensure_parent_dir : Bytes → List Bytes → Io (Unit {0})
ensure_parent_dir dest ps = perform (make_dirs (at dest (parent ps)) 0o755)

-- A regular file, and what is read from the archive for it.
abbrev pub extract_file : Bytes → List Bytes → ℕ → Bytes → Io (Unit {0})
extract_file dest ps mode content = do
  u ← ensure_parent_dir dest ps
  u ← perform (create_file (at dest ps) (perm_of mode))
  deferring (close_file (at dest ps)) (perform (write_text (at dest ps) content))

abbrev pub extract_symlink : Bytes → List Bytes → Bytes → Io (Unit {0})
extract_symlink dest ps linkname = do
  u ← ensure_parent_dir dest ps
  u ← try_call (remove (at dest ps))
  perform (symlink linkname (at dest ps))

abbrev pub extract_link : Bytes → List Bytes → Bytes → Io (Unit {0})
extract_link dest ps linkname = do
  u ← ensure_parent_dir dest ps
  u ← try_call (remove (at dest ps))
  perform (link (at dest (join_to dest (split b'/' linkname))) (at dest ps))

-- By the type flag; other types are only warned of.
abbrev pub extract_typed : Bytes → List Bytes → EntryType → ℕ → Bytes → Bytes → Io (Unit {0})
extract_typed dest ps type_dir mode linkname content =
    perform (make_dirs (at dest ps) (perm_of mode))
extract_typed dest ps type_reg mode linkname content = extract_file dest ps mode content
extract_typed dest ps type_symlink mode linkname content = extract_symlink dest ps linkname
extract_typed dest ps type_link mode linkname content = extract_link dest ps linkname
extract_typed dest ps type_other mode linkname content = pure tt

abbrev pub remove_entry : Bytes → List Bytes → DirEntry → Io (Unit {0})
remove_entry dest ps e = try_call (remove_all (at dest (e.name ∷ ps)))

-- The entries of a directory that cannot be read are none.
abbrev pub remove_entries : Bytes → List Bytes → DirReply → Io (Unit {0})
remove_entries dest ps no_dir = pure tt
remove_entries dest ps dir_error = pure tt
remove_entries dest ps (dir_entries entries) = each (remove_entry dest ps) entries

abbrev pub opaque_name : Bytes
opaque_name = codes ".wh..wh..opq"

abbrev pub whiteout_prefix : Bytes
whiteout_prefix = codes ".wh."

abbrev pub opaque_whiteout : Bytes → Bytes → Io (Unit {0})
opaque_whiteout dest name =
    ask (read_dir (at dest (join_to dest (dir_parts name))))
      (remove_entries dest (join_to dest (dir_parts name)))

abbrev pub plain_whiteout : Bytes → Bytes → Io (Unit {0})
plain_whiteout dest name = try_call (
    remove_all (
      at dest (join_to dest (dir_parts name ++ trim_prefix (base_name name) whiteout_prefix ∷ []))))

-- One round of the loop over the archive.
unfoldable pub extract_entry : Bytes → TarEntry → Bytes → Io (Unit {0})
extract_entry dest e content =
    if equal (base_name e.name) opaque_name
    then opaque_whiteout dest e.name
    else if has_prefix (base_name e.name) whiteout_prefix
    then plain_whiteout dest e.name
    else extract_typed dest (join_to dest (split b'/' e.name)) e.entry_type e.mode e.linkname
        content

unfoldable pub extract_entries : Bytes → Bool → List (TarEntry × Bytes) → Io (Unit {0})
extract_entries dest true [] = pure tt
extract_entries dest false [] = throw (codes "czytanie tar" ∷ [])
extract_entries dest complete ((e, content) ∷ entries) = do
  u ← extract_entry dest e content
  extract_entries dest complete entries

-- `none` is a layer whose Uncompressed fails.
unfoldable pub extract_layer : Bytes → Option Archive → Io (Unit {0})
extract_layer dest none = throw (codes "Uncompressed()" ∷ [])
extract_layer dest (some archive) = extract_entries dest archive.complete archive.entries

abbrev pub extract_numbered : Bytes → Option Archive → Io (Unit {0})
extract_numbered dest layer = within (codes "rozpakowywanie warstwy") (extract_layer dest layer)

abbrev pub extract_layers : Bytes → Option (List (Option Archive)) → Io (Unit {0})
extract_layers dest none = throw (codes "odczyt warstw obrazu" ∷ [])
extract_layers dest (some layers) = each (extract_numbered dest) layers

unfoldable pub pull_and_unpack : PullParams → Io (Unit {0})
pull_and_unpack p = do
  let reference = p.repository ++ b':' ∷ p.tag
  u ← within (codes "nieprawidlowa referencja obrazu") (perform (parse_reference reference))
  u ←
      within (codes "pobieranie nie powiodlo sie")
        (perform (fetch_image reference p.token p.insecure))
  u ← within (codes "czyszczenie") (perform (remove_all p.dest_dir))
  u ← within (codes "tworzenie") (perform (make_dirs p.dest_dir 0o755))
  ask (read_layers reference) (extract_layers p.dest_dir)
