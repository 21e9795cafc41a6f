-- ===== src/Ociimage/Modes.antt =====
-- The permissions of what the unpacking of an image creates.
use hacker_os_builder.Prelude.{
  ℕ, ◌<◌, ◌^◌, All, Bool, true, false, some, List, [], ◌∷◌, Bytes, equal, Bool-cases, inl, inr,
  arith,
}
use hacker_os_builder.Text.Search.{has_prefix}
use hacker_os_builder.System.{
  make_dirs, create_file, EntryType, type_dir, type_reg, type_symlink, type_link, type_other,
  TarEntry, Archive, DirReply, no_dir, dir_error, dir_entries, Call, act,
}
use hacker_os_builder.System.Always.{
  Always, pure-Always, throw-Always, ask-Always, bind-Always, perform-Always, deferring-Always,
  each-Always,
}
use hacker_os_builder.System.Components.{base_name}
use hacker_os_builder.Ociimage.Pull.{
  perm_of, extract_typed, remove_entries, opaque_name, whiteout_prefix, extract_entry,
  extract_entries, extract_layer,
}

-- A directory or a file is made with the nine permission bits only.
abbrev pub HasPlainMode : Call → Type 0
HasPlainMode (act (make_dirs path mode)) = mode < 512
HasPlainMode (act (create_file path mode)) = mode < 512
HasPlainMode _ = Unit

-- A mode as a tar header has it: the permissions, the bits of setuid, setgid and sticky below
-- 0o10000, and the bits of the type of a file, below 2 ^ 20.
abbrev pub HasTarMode : TarEntry × Bytes → Type 0
HasTarMode x = x.0.mode < 2 ^ 20

mod_low : (mode : ℕ) → mode < 2 ^ 20 → perm_of mode < 512
mod_low mode h = omega (arith, h)

module _ (dest : Bytes) where
  typed-HasPlainMode :
      (ps : List Bytes) (t : EntryType) (mode : ℕ) (linkname content : Bytes)
      → mode < 2 ^ 20
      → Always HasPlainMode (extract_typed dest ps t mode linkname content)
  typed-HasPlainMode ps type_dir mode linkname content h = perform-Always _ _ (mod_low mode h)
  typed-HasPlainMode ps type_reg mode linkname content h =
      bind-Always _ _ _ (perform-Always _ _ (omega arith)) λ u.
        bind-Always _ _ _ (perform-Always _ _ (mod_low mode h))
          λ u. deferring-Always _ _ _ tt (perform-Always _ _ tt)
  typed-HasPlainMode ps type_symlink mode linkname content h =
      bind-Always _ _ _ (perform-Always _ _ (omega arith)) λ u.
        bind-Always _ _ _ (ask-Always _ _ _ tt λ ok. pure-Always _ _) λ u. perform-Always _ _ tt
  typed-HasPlainMode ps type_link mode linkname content h =
      bind-Always _ _ _ (perform-Always _ _ (omega arith)) λ u.
        bind-Always _ _ _ (ask-Always _ _ _ tt λ ok. pure-Always _ _) λ u. perform-Always _ _ tt
  typed-HasPlainMode ps type_other mode linkname content h = pure-Always _ _

  removed-HasPlainMode :
      (ps : List Bytes) (reply : DirReply) → Always HasPlainMode (remove_entries dest ps reply)
  removed-HasPlainMode ps no_dir = pure-Always _ _
  removed-HasPlainMode ps dir_error = pure-Always _ _
  removed-HasPlainMode ps (dir_entries entries) =
      each-Always _ _ entries λ e. ask-Always _ _ _ tt λ ok. pure-Always _ _

  entry-HasPlainMode :
      (e : TarEntry) (content : Bytes)
      → e.mode < 2 ^ 20
      → Always HasPlainMode (extract_entry dest e content)
  unfolding extract_entry
  entry-HasPlainMode e content h = elim (Bool-cases (equal (base_name e.name) opaque_name)) [
    | inl opaque ↦ rw opaque (ask-Always _ _ _ tt (removed-HasPlainMode _))
    | inr other ↦ elim (Bool-cases (has_prefix (base_name e.name) whiteout_prefix)) [
      | inl hidden ↦ rw (other, hidden) (ask-Always _ _ _ tt λ ok. pure-Always _ _)
      | inr plain ↦
          rw (other, plain) (typed-HasPlainMode _ e.entry_type e.mode e.linkname content h)
    ]
  ]

  entries-HasPlainMode :
      (complete : Bool) (entries : List (TarEntry × Bytes))
      → All HasTarMode entries
      → Always HasPlainMode (extract_entries dest complete entries)
  unfolding extract_entries
  entries-HasPlainMode true [] h = pure-Always _ _
  entries-HasPlainMode false [] h = throw-Always _ _
  entries-HasPlainMode complete ((e, content) ∷ entries) (low, h) =
      bind-Always _ _ _ (entry-HasPlainMode e content low)
        λ u. entries-HasPlainMode complete entries h

-- Where every mode in the headers of a layer is below 2 ^ 20, as those of tar are, its unpacking
-- asks for every file and directory with permissions below 0o1000, whatever the system answers: none
-- is setuid, setgid or sticky, though the bits of the header may say so.
pub extract_layer-HasPlainMode :
    (dest : Bytes) (archive : Archive)
    → All HasTarMode archive.entries
    → Always HasPlainMode (extract_layer dest (some archive))
unfolding extract_layer
extract_layer-HasPlainMode dest archive h =
    entries-HasPlainMode dest archive.complete archive.entries h
