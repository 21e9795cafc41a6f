-- ===== src/Ociimage/Mirrored.antt =====
-- The entries that are packed from a rootfs, and the layer of them unpacked.
use hacker_os_builder.Prelude.{
  ℕ, true, false, none, some, List, [], ◌∷◌, map, Bytes, mem, distinct, All, ◌≡◌, refl, ◌∙◌, ap,
  subst,
}
use hacker_os_builder.Text.Search.{has_prefix}
use hacker_os_builder.Text.Pieces.{split}
use hacker_os_builder.System.{TarEntry, Kind}
use hacker_os_builder.System.Components.{join_to}
use hacker_os_builder.System.Ends.{Ends, weaken-Ends}
use hacker_os_builder.Ociimage.Pull.{at, whiteout_prefix, extract_layer}
use hacker_os_builder.Ociimage.Push.{type_of, header_of}
use hacker_os_builder.Ociimage.Packed.{is_whiteout, base_name-name_of, join_to-name_of}
use hacker_os_builder.Ociimage.Disk.{Files, on_disk, Leaves}
use hacker_os_builder.Ociimage.Unpacked.{target, IsNew, extract_layer-Unpacked}

-- What the walk of a rootfs finds: the path below the root, which is not empty, and for a file its
-- content, for a link its target.
pub record Found : Type 0 where
  pub kind : Kind
  pub first : ℕ
  pub rest : Bytes
  pub mode : ℕ
  pub link_to : Bytes
  pub content : Bytes

abbrev pub rel_of : Found → Bytes
rel_of f = f.first ∷ f.rest

-- The entry of the layer.
abbrev pub entry_of : Found → TarEntry × Bytes
entry_of f = (header_of f.kind (rel_of f) f.mode f.link_to, f.content)

module _ (dest : Bytes) where
  abbrev pub mirror : Found → Bytes
  mirror f = at dest (join_to dest (split b'/' (rel_of f)))

  abbrev pub IsMirrored : Files → Found → Type 0
  IsMirrored t' f = Leaves (type_of f.kind) f.link_to f.content (t' (mirror f))

  abbrev pub CanMirror : Files → Found → Type 0
  CanMirror t f = (is_whiteout (rel_of f) ≡ false) × (t (mirror f) ≡ none)

  target-entry_of : (f : Found) → target dest (entry_of f) ≡ mirror f
  target-entry_of f = ap (at dest) (join_to-name_of dest f.kind (rel_of f))

  targets : (found : List Found) → map (target dest) (map entry_of found) ≡ map mirror found
  targets [] = refl
  targets (f ∷ found) =
      ap (λ path. path ∷ map (target dest) (map entry_of found)) (target-entry_of f)
      ∙ ap (λ paths. mirror f ∷ paths) (targets found)

  entry_of-IsNew :
      (t : Files) (found : List Found)
      → All (CanMirror t) found
      → All (IsNew dest t) (map entry_of found)
  entry_of-IsNew t [] h = tt
  entry_of-IsNew t (f ∷ found) ((plain, free), h) = (
    (
      ap (λ name. has_prefix name whiteout_prefix) (base_name-name_of f.kind f.first f.rest)
          ∙ plain,
      ap t (target-entry_of f) ∙ free,
    ),
    entry_of-IsNew t found h,
  )

  Leaves-IsMirrored :
      (t' : Files) (found : List Found)
      → All (λ x. Leaves x.0.entry_type x.0.linkname x.1 (t' (target dest x))) (map entry_of found)
      → All (IsMirrored t') found
  Leaves-IsMirrored t' [] h = tt
  Leaves-IsMirrored t' (f ∷ found) (left, h) = (
    subst (λ path. Leaves (type_of f.kind) f.link_to f.content (t' path)) (target-entry_of f) left,
    Leaves-IsMirrored t' found h,
  )

-- What the unpacking of the entries leaves.
pub extract_layer-IsMirrored :
    (dest : Bytes) (found : List Found) (t : Files)
    → distinct (map (mirror dest) found) ≡ true
    → All (CanMirror dest t) found
    → Ends on_disk
        (extract_layer dest (some (record { entries = map entry_of found; complete = true })))
        (λ u t'.
          All (IsMirrored dest t') found
          × ((q : Bytes) → mem q (map (mirror dest) found) ≡ false → t' q ≡ t q))
        (λ t'. Unit)
        t
extract_layer-IsMirrored dest found t d h =
    weaken-Ends on_disk _ _ _ _ _ t
      (λ u t' (left, kept). (
        Leaves-IsMirrored dest t' found left,
        λ q other. kept q (ap (mem q) (targets dest found) ∙ other),
      ))
      (λ t' k. tt)
      (extract_layer-Unpacked dest (record { entries = map entry_of found; complete = true }) t
        (ap distinct (targets dest found) ∙ d) (entry_of-IsNew dest t found h))
