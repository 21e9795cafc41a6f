-- ===== src/Ociimage/Unpacked.antt =====
-- The files and links below a directory in which a layer is unpacked.
use hacker_os_builder.Prelude.{
  ℕ, Bool, true, false, not, ◌&&◌, ◌||◌, none, some, List, [], ◌∷◌, map, Bytes, equal, equal_iff,
  mem, distinct, All, ◌≡◌, refl, sym, ◌∙◌, subst, arith,
}
use hacker_os_builder.Text.Search.{has_prefix}
use hacker_os_builder.Text.Pieces.{split}
use hacker_os_builder.System.{
  make_dirs, remove, create_file, write_text, close_file, symlink, link, EntryType, type_dir,
  type_reg, type_symlink, type_link, type_other, TarEntry, Archive, act, Io,
}
use hacker_os_builder.System.Ends.{
  Ends, pure-Ends, throw-Ends, ask-Ends, bind-Ends, then-Ends, weaken-Ends, perform-Ends,
  deferring-Ends,
}
use hacker_os_builder.System.Components.{base_name, join_to}
use hacker_os_builder.Ociimage.Pull.{
  perm_of, at, extract_file, extract_symlink, extract_link, extract_typed, whiteout_prefix,
  extract_entry, extract_entries, extract_layer,
}
use hacker_os_builder.Ociimage.Packed.{not_opaque}
use hacker_os_builder.Ociimage.Disk.{
  Files, on_disk, Leaves, Only, put_here, put_there, put_again, file_written, removed_there,
}

equal_sym : (r s : Bytes) → equal r s ≡ false → equal s r ≡ false
equal_sym r s h = ground (arith, h, equal_iff r s, equal_iff s r)

neither : (a b : Bool) → (a || b) ≡ false → (a ≡ false) × (b ≡ false)
neither false b h = (refl, h)
neither true b h = cc

both : (a b : Bool) → (not a && b) ≡ true → (a ≡ false) × (b ≡ true)
both false b h = (refl, h)
both true b h = cc

module _ (dest : Bytes) where
  abbrev Unpacks : List Bytes → EntryType → Bytes → Bytes → Files → Io (Unit {0}) → Type 0
  Unpacks ps type linkname content t m =
      Ends on_disk m
        (λ u t'. Leaves type linkname content (t' (at dest ps)) × Only (at dest ps) t t')
        (λ t'. Unit) t

  file-Unpacks :
      (ps : List Bytes) (mode : ℕ) (linkname content : Bytes) (t : Files)
      → t (at dest ps) ≡ none
      → Unpacks ps type_reg linkname content t (extract_file dest ps mode content)
  file-Unpacks ps mode linkname content t h = bind-Ends on_disk _ _ _ _ t (
      perform-Ends on_disk (make_dirs _ _) _ _ t
        (bind-Ends on_disk _ _ _ _ t (
          perform-Ends on_disk (create_file (at dest ps) (perm_of mode)) _ _ t
            (deferring-Ends on_disk (close_file (at dest ps)) _ _ _ _ (
              perform-Ends on_disk (write_text (at dest ps) content) _ _ _
                (λ ok. (
                  file_written (at dest ps) content t h,
                  put_again (at dest ps) _ t _ (put_there (at dest ps) _ t),
                ))
                (λ ok. tt)))
            tt))
        tt)

  symlink-Unpacks :
      (ps : List Bytes) (linkname content : Bytes) (t : Files)
      → Unpacks ps type_symlink linkname content t (extract_symlink dest ps linkname)
  symlink-Unpacks ps linkname content t = bind-Ends on_disk _ _ _ _ t (
      perform-Ends on_disk (make_dirs _ _) _ _ t
        (bind-Ends on_disk _ _ _ _ t (
          ask-Ends on_disk (act (remove (at dest ps))) _ _ _ t λ ok. pure-Ends on_disk tt _ _ _ (
            perform-Ends on_disk (symlink linkname (at dest ps)) _ _ _
              (
                put_here (at dest ps) _ (on_disk t (act (remove (at dest ps))) ok),
                put_again (at dest ps) _ t _ (removed_there (at dest ps) t ok),
              )
              tt)))
        tt)

  link-Unpacks :
      (ps : List Bytes) (linkname content : Bytes) (t : Files)
      → Unpacks ps type_link linkname content t (extract_link dest ps linkname)
  link-Unpacks ps linkname content t = bind-Ends on_disk _ _ _ _ t (
      perform-Ends on_disk (make_dirs _ _) _ _ t
        (bind-Ends on_disk _ _ _ _ t (
          ask-Ends on_disk (act (remove (at dest ps))) _ _ _ t λ ok. pure-Ends on_disk tt _ _ _ (
            perform-Ends on_disk (link _ (at dest ps)) _ _ _
              (tt, put_again (at dest ps) _ t _ (removed_there (at dest ps) t ok)) tt)))
        tt)

  typed-Unpacks :
      (ps : List Bytes) (type : EntryType) (mode : ℕ) (linkname content : Bytes) (t : Files)
      → t (at dest ps) ≡ none
      → Unpacks ps type linkname content t (extract_typed dest ps type mode linkname content)
  typed-Unpacks ps type_dir mode linkname content t h =
      perform-Ends on_disk (make_dirs _ _) _ _ t (tt, λ q other. refl) tt
  typed-Unpacks ps type_reg mode linkname content t h = file-Unpacks ps mode linkname content t h
  typed-Unpacks ps type_symlink mode linkname content t h = symlink-Unpacks ps linkname content t
  typed-Unpacks ps type_link mode linkname content t h = link-Unpacks ps linkname content t
  typed-Unpacks ps type_other mode linkname content t h =
      pure-Ends on_disk tt _ _ t (tt, λ q other. refl)

  -- Where an entry of an archive goes.
  abbrev pub place : TarEntry → List Bytes
  place e = join_to dest (split b'/' e.name)

  entry-Unpacks :
      (e : TarEntry) (content : Bytes) (t : Files)
      → has_prefix (base_name e.name) whiteout_prefix ≡ false
      → t (at dest (place e)) ≡ none
      → Unpacks (place e) e.entry_type e.linkname content t (extract_entry dest e content)
  unfolding extract_entry
  entry-Unpacks e content t plain h =
      rw (not_opaque (base_name e.name) plain, plain)
        (typed-Unpacks (place e) e.entry_type e.mode e.linkname content t h)

  abbrev pub target : TarEntry × Bytes → Bytes
  target x = at dest (place x.0)

  -- Each entry has left what its type says, and at all other paths there is what there was.
  abbrev pub AreUnpacked : List (TarEntry × Bytes) → Files → Files → Type 0
  AreUnpacked entries t t' =
      All (λ x. Leaves x.0.entry_type x.0.linkname x.1 (t' (target x))) entries
      × ((q : Bytes) → mem q (map target entries) ≡ false → t' q ≡ t q)

  -- A name that is no whiteout, and nothing at its path.
  abbrev pub IsNew : Files → TarEntry × Bytes → Type 0
  IsNew t x = (has_prefix (base_name x.0.name) whiteout_prefix ≡ false) × (t (target x) ≡ none)

  still-IsNew :
      (path : Bytes) (t t' : Files) (entries : List (TarEntry × Bytes))
      → mem path (map target entries) ≡ false
      → Only path t t'
      → All (IsNew t) entries
      → All (IsNew t') entries
  unfolding mem
  still-IsNew path t t' [] fresh only h = tt
  still-IsNew path t t' (x ∷ entries) fresh only ((plain, free), h) =
      let (other, others) = neither _ _ fresh in
      (
        (plain, only (target x) (equal_sym (target x) path other) ∙ free),
        still-IsNew path t t' entries others only h,
      )

  entries-Unpacked :
      (complete : Bool) (entries : List (TarEntry × Bytes)) (t : Files)
      → distinct (map target entries) ≡ true
      → All (IsNew t) entries
      → Ends on_disk
          (extract_entries dest complete entries)
          (λ u. AreUnpacked entries t)
          (λ t'. Unit)
          t
  unfolding extract_entries mem distinct
  entries-Unpacked true [] t d h = pure-Ends on_disk tt _ _ t (tt, λ q other. refl)
  entries-Unpacked false [] t d h = throw-Ends on_disk _ _ _ t tt
  entries-Unpacked complete ((e, content) ∷ entries) t d ((plain, free), h) =
      let (fresh, d') = both _ _ d in
      then-Ends on_disk _ _ _ _ _ t (entry-Unpacks e content t plain free) λ u t1 (left, only).
        weaken-Ends on_disk _ _ _ _ _ t1
          (λ u t' (unpacked, kept). (
            (
              subst (Leaves e.entry_type e.linkname content)
                  (sym (kept (target (e, content)) fresh)) left,
              unpacked,
            ),
            λ q outside. let (other, others) = neither _ _ outside in kept q others ∙ only q other,
          ))
          (λ t' k. tt)
          (entries-Unpacked complete entries t1 d' (still-IsNew _ t t1 entries fresh only h))

-- Where the names in the archive of a layer go to different paths at which nothing stands, and none
-- is a whiteout, a layer that is unpacked with no error has left every file with its content and
-- every symbolic link with its target, and nothing else is changed, whatever the system answers.
-- Directories are not compared, and none above these paths is a symbolic link.
pub extract_layer-Unpacked :
    (dest : Bytes) (archive : Archive) (t : Files)
    → distinct (map (target dest) archive.entries) ≡ true
    → All (IsNew dest t) archive.entries
    → Ends on_disk
        (extract_layer dest (some archive))
        (λ u. AreUnpacked dest archive.entries t)
        (λ t'. Unit)
        t
unfolding extract_layer
extract_layer-Unpacked dest archive t d h =
    entries-Unpacked dest archive.complete archive.entries t d h
