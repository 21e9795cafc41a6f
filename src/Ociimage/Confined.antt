-- ===== src/Ociimage/Confined.antt =====
-- Where the unpacking of an image writes.
use mathlib.Core.List.{reverse_aux}
use hacker_os_builder.Prelude.{
  ℕ, Bool, true, false, some, List, [], ◌∷◌, ◌++◌, Bytes, equal, All, All-append, ◌≡◌, refl, ap,
  sym, ◌∙◌, ◌⊎◌, inl, inr, Bool-cases, subst, append-nil,
}
use hacker_os_builder.Text.Search.{has_prefix, trim_prefix}
use hacker_os_builder.Text.Pieces.{split}
use hacker_os_builder.System.{
  make_dirs, remove, remove_all, create_file, write_text, symlink, link, EntryType, type_dir,
  type_reg, type_symlink, type_link, type_other, TarEntry, Archive, DirReply, no_dir, dir_error,
  dir_entries, Call, act,
}
use hacker_os_builder.System.Always.{
  Always, pure-Always, throw-Always, ask-Always, bind-Always, perform-Always, deferring-Always,
  each-Always,
}
use hacker_os_builder.System.Components.{
  is_rooted, components, join_to, dir_parts, base_name, front_parts, IsPlain, IsLonger,
  go_along-IsLonger,
}
use hacker_os_builder.Ociimage.Pull.{
  at, parent, extract_typed, remove_entries, opaque_name, whiteout_prefix, plain_whiteout,
  extract_entry, extract_entries, extract_layer,
}

-- The path is the directory, or is made of its components and others behind them, none of which
-- leads up.
pub record IsUnder (dest path : Bytes) : Type 0 where
  pub place : List Bytes
  pub below : IsLonger (components dest) place
  pub path_is : path ≡ at dest place

-- An entry of a directory that is under it, by its name.
pub record IsEntryUnder (dest path : Bytes) : Type 0 where
  pub name : Bytes
  pub place : List Bytes
  pub below : IsLonger (components dest) place
  pub path_is : path ≡ at dest (name ∷ place)

-- A call that changes nothing but what is under the directory. The directory that has it may be
-- made too.
abbrev pub StaysUnder : Bytes → Call → Type 0
StaysUnder dest (act (make_dirs path mode)) =
    IsUnder dest path ⊎ (path ≡ at dest (parent (components dest)))
StaysUnder dest (act (remove path)) = IsUnder dest path
StaysUnder dest (act (remove_all path)) = IsUnder dest path ⊎ IsEntryUnder dest path
StaysUnder dest (act (create_file path mode)) = IsUnder dest path
StaysUnder dest (act (write_text path text)) = IsUnder dest path
StaysUnder dest (act (symlink target path)) = IsUnder dest path
StaysUnder dest (act (link old path)) = IsUnder dest old × IsUnder dest path
StaysUnder dest _ = Unit

-- An entry whose name, and whose link if it is a hard link, has no part `..`, and neither has the
-- name that a whiteout hides.
pub record IsLocal (e : TarEntry) : Type 0 where
  pub name_plain : All IsPlain (split b'/' e.name)
  pub hidden_plain : IsPlain (trim_prefix (base_name e.name) whiteout_prefix)
  pub link_plain : All IsPlain (split b'/' e.linkname) ⊎ (e.entry_type ≡ type_symlink)

parent_cases :
    (base ps : List Bytes)
    → IsLonger base ps
    → IsLonger base (parent ps) ⊎ (parent ps ≡ parent base)
parent_cases base ps h = of_added h.added h.longer h.plain
  where
    of_added :
        (added : List Bytes)
        → ps ≡ added ++ base
        → All IsPlain added
        → IsLonger base (parent ps) ⊎ (parent ps ≡ parent base)
    of_added [] e k = inr (ap parent e)
    of_added (z ∷ zs) e k = inl (record { added = zs; longer = ap parent e; plain = k.1 })

reverse_aux-IsPlain :
    (xs acc : List Bytes) → All IsPlain xs → All IsPlain acc → All IsPlain (reverse_aux xs acc)
reverse_aux-IsPlain [] acc h k = k
reverse_aux-IsPlain (x ∷ xs) acc h k = reverse_aux-IsPlain xs (x ∷ acc) h.1 (h.0, k)

front-IsPlain : (ps : List Bytes) → All IsPlain ps → All IsPlain (front_parts ps)
front-IsPlain [] h = tt
front-IsPlain (p ∷ []) h = tt
front-IsPlain (p ∷ q ∷ ps) h = (h.0, front-IsPlain (q ∷ ps) h.1)

-- What is added to no components is plain.
IsPlain-of_longer : (ps : List Bytes) → IsLonger [] ps → All IsPlain ps
IsPlain-of_longer ps h = subst (All IsPlain) (sym (h.longer ∙ append-nil h.added)) h.plain

dir_parts-IsPlain : (name : Bytes) → All IsPlain (split b'/' name) → All IsPlain (dir_parts name)
unfolding dir_parts
dir_parts-IsPlain name h =
    reverse_aux-IsPlain _ []
      (IsPlain-of_longer _ (
        go_along-IsLonger (is_rooted name) [] (front_parts (split b'/' name))
          (front-IsPlain (split b'/' name) h)))
      tt

join_to-IsLonger :
    (dest : Bytes) (parts : List Bytes)
    → All IsPlain parts
    → IsLonger (components dest) (join_to dest parts)
unfolding join_to
join_to-IsLonger dest parts h = go_along-IsLonger (is_rooted dest) (components dest) parts h

module _ (dest : Bytes) where
  under : (ps : List Bytes) → IsLonger (components dest) ps → IsUnder dest (at dest ps)
  under ps h = record { place = ps; below = h; path_is = refl }

  parent-IsUnder :
      (ps : List Bytes)
      → IsLonger (components dest) ps
      → IsUnder dest (at dest (parent ps))
        ⊎ (at dest (parent ps) ≡ at dest (parent (components dest)))
  parent-IsUnder ps h = elim (parent_cases (components dest) ps h) [
    | inl longer ↦ inl (under (parent ps) longer)
    | inr same ↦ inr (ap (at dest) same)
  ]

  typed-StaysUnder :
      (ps : List Bytes) (t : EntryType) (mode : ℕ) (linkname content : Bytes)
      → IsLonger (components dest) ps
      → All IsPlain (split b'/' linkname) ⊎ (t ≡ type_symlink)
      → Always (StaysUnder dest) (extract_typed dest ps t mode linkname content)
  typed-StaysUnder ps type_dir mode linkname content h k = perform-Always _ _ (inl (under ps h))
  typed-StaysUnder ps type_reg mode linkname content h k =
      bind-Always _ _ _ (perform-Always _ _ (parent-IsUnder ps h)) λ u.
        bind-Always _ _ _ (perform-Always _ _ (under ps h))
          λ u. deferring-Always _ _ _ tt (perform-Always _ _ (under ps h))
  typed-StaysUnder ps type_symlink mode linkname content h k =
      bind-Always _ _ _ (perform-Always _ _ (parent-IsUnder ps h)) λ u.
        bind-Always _ _ _ (ask-Always _ _ _ (under ps h) λ ok. pure-Always _ _)
          λ u. perform-Always _ _ (under ps h)
  typed-StaysUnder ps type_link mode linkname content h (inr e) = cc
  typed-StaysUnder ps type_link mode linkname content h (inl k) =
      bind-Always _ _ _ (perform-Always _ _ (parent-IsUnder ps h)) λ u.
        bind-Always _ _ _ (ask-Always _ _ _ (under ps h) λ ok. pure-Always _ _) λ u.
          perform-Always _ _ (under _ (join_to-IsLonger dest (split b'/' linkname) k), under ps h)
  typed-StaysUnder ps type_other mode linkname content h k = pure-Always _ _

  entries-StaysUnder :
      (ps : List Bytes) (reply : DirReply)
      → IsLonger (components dest) ps
      → Always (StaysUnder dest) (remove_entries dest ps reply)
  entries-StaysUnder ps no_dir h = pure-Always _ _
  entries-StaysUnder ps dir_error h = pure-Always _ _
  entries-StaysUnder ps (dir_entries entries) h = each-Always _ _ entries λ e.
      ask-Always _ _ _ (inr (record { name = e.name; place = ps; below = h; path_is = refl }))
        λ ok. pure-Always _ _

  whiteout-StaysUnder :
      (e : TarEntry) → IsLocal e → Always (StaysUnder dest) (plain_whiteout dest e.name)
  whiteout-StaysUnder e h =
      let longer = join_to-IsLonger dest _ (
        All-append IsPlain (dir_parts e.name) _ (dir_parts-IsPlain e.name h.name_plain)
          (h.hidden_plain, tt)) in
      ask-Always _ _ _ (inl (under _ longer)) λ ok. pure-Always _ _

  entry-StaysUnder :
      (e : TarEntry) (content : Bytes)
      → IsLocal e
      → Always (StaysUnder dest) (extract_entry dest e content)
  unfolding extract_entry
  entry-StaysUnder e content h = elim (Bool-cases (equal (base_name e.name) opaque_name)) [
    | inl opaque ↦ rw opaque (
        ask-Always _ _ _ tt λ reply.
          entries-StaysUnder _ reply
            (join_to-IsLonger dest (dir_parts e.name) (dir_parts-IsPlain e.name h.name_plain)))
    | inr other ↦ elim (Bool-cases (has_prefix (base_name e.name) whiteout_prefix)) [
      | inl hidden ↦ rw (other, hidden) (whiteout-StaysUnder e h)
      | inr plain ↦
          rw (other, plain)
            (typed-StaysUnder _ e.entry_type e.mode e.linkname content
              (join_to-IsLonger dest (split b'/' e.name) h.name_plain) h.link_plain)
    ]
  ]

  extract_entries-StaysUnder :
      (complete : Bool) (entries : List (TarEntry × Bytes))
      → All (λ x. IsLocal x.0) entries
      → Always (StaysUnder dest) (extract_entries dest complete entries)
  unfolding extract_entries
  extract_entries-StaysUnder true [] h = pure-Always _ _
  extract_entries-StaysUnder false [] h = throw-Always _ _
  extract_entries-StaysUnder complete ((e, content) ∷ entries) h =
      bind-Always _ _ _ (entry-StaysUnder e content h.0)
        λ u. extract_entries-StaysUnder complete entries h.1

-- Where no name in the archive of a layer has a part `..`, and neither has the name that a whiteout
-- hides or the target of a hard link, unpacking the layer removes, creates, writes and links only
-- under the directory, whatever the system answers. Links that lead outside are not followed here.
pub extract_layer-StaysUnder :
    (dest : Bytes) (archive : Archive)
    → All (λ x. IsLocal x.0) archive.entries
    → Always (StaysUnder dest) (extract_layer dest (some archive))
unfolding extract_layer
extract_layer-StaysUnder dest archive h =
    extract_entries-StaysUnder dest archive.complete archive.entries h
