-- ===== src/Ociimage/Layer.antt =====
-- internal/ociimage/push.go: the archive that the packing of a rootfs writes, and what is unpacked
-- from it.
use hacker_os_builder.Prelude.{
  ℕ, true, false, ◌&&◌, Option, some, List, [], ◌∷◌, ◌++◌, map, if◌then◌else◌, Bytes, equal,
  equal_refl, mem, distinct, All, ◌≡◌, refl, sym, ◌∙◌, ap, subst, append_assoc, append-nil,
}
use hacker_os_builder.Liveparse.{join_path}
use hacker_os_builder.System.{
  create_file, close_file, open_file, copy_data, write_header, TarEntry, Kind, dir_kind, file_kind,
  link_kind, other_kind, socket_kind, Visit, Call, act, walk, read_link, Answer, pure, perform,
  ◌>>=◌, each,
}
use hacker_os_builder.System.Given.{
  Given, weaken-Given, pure-Given, ask-Given, then-Given, perform-Given, deferring-Given,
}
use hacker_os_builder.System.Ends.{Ends}
use hacker_os_builder.Ociimage.Pull.{extract_layer}
use hacker_os_builder.Ociimage.Push.{
  header_of, add_content, pack_rel, pack_visit, create_layer_tarball,
}
use hacker_os_builder.Ociimage.Disk.{Files, on_disk}
use hacker_os_builder.Ociimage.Mirrored.{
  Found, rel_of, entry_of, mirror, IsMirrored, CanMirror, extract_layer-IsMirrored,
}

-- What filepath.Walk is called for at a path.
abbrev pub visit_of : Found → Visit
visit_of f = record { failed = false; rel = rel_of f; kind = f.kind; mode = f.mode }

abbrev pub root_visit : ℕ → Visit
root_visit mode = record { failed = false; rel = []; kind = dir_kind; mode = mode }

-- More content of the last entry.
abbrev pub add_last : Bytes → List (TarEntry × Bytes) → List (TarEntry × Bytes)
add_last text [] = []
add_last text ((e, content) ∷ []) = (e, content ++ text) ∷ []
add_last text (x ∷ y ∷ entries) = x ∷ add_last text (y ∷ entries)

-- What a link answers and what a file holds, as the entry has it. A socket is not packed.
abbrev pub IsRead : Kind → Bytes → Bytes → Option Bytes → Bytes → Type 0
IsRead dir_kind link_to content reply text = (link_to ≡ []) × (content ≡ [])
IsRead file_kind link_to content reply text = (link_to ≡ []) × (content ≡ text)
IsRead link_kind link_to content reply text = (reply ≡ some link_to) × (content ≡ [])
IsRead other_kind link_to content reply text = (link_to ≡ []) × (content ≡ [])
IsRead socket_kind link_to content reply text = ⊥

-- `contents` tells what the files hold.
module _ (contents : Bytes → Bytes) (layer : Bytes) where
  -- The entries of the archive in the file of the layer, behind a call.
  abbrev pub on_layer : List (TarEntry × Bytes) → (c : Call) → Answer c → List (TarEntry × Bytes)
  on_layer s (act (create_file path mode)) ok = if ok && equal path layer then [] else s
  on_layer s (act (write_header path e)) ok =
      if ok && equal path layer then s ++ (e, []) ∷ [] else s
  on_layer s (act (copy_data path from)) ok =
      if ok && equal path layer then add_last (contents from) s else s
  on_layer s _ answer = s

  abbrev pub IsReadAs : ((c : Call) → Answer c) → Bytes → Found → Type 0
  IsReadAs o root f =
      let path = join_path root (rel_of f) in
      IsRead f.kind f.link_to f.content (o (read_link path)) (contents path)

  module _ (o : (c : Call) → Answer c) (root : Bytes) where
    -- An entry more in the archive.
    abbrev Adds :
        TarEntry × Bytes → List (TarEntry × Bytes) → Unit {0} → List (TarEntry × Bytes) → Type 0
    Adds x s u t = t ≡ s ++ x ∷ []

    header_written :
        (s : List (TarEntry × Bytes)) (e : TarEntry)
        → on_layer s (act (write_header layer e)) true ≡ s ++ (e, []) ∷ []
    header_written s e = rw (equal_refl layer) refl

    add_last-append :
        (text : Bytes) (s : List (TarEntry × Bytes)) (e : TarEntry)
        → add_last text (s ++ (e, []) ∷ []) ≡ s ++ (e, text) ∷ []
    add_last-append text [] e = refl
    add_last-append text (x ∷ []) e = refl
    add_last-append text (x ∷ y ∷ s) e = ap (λ t. x ∷ t) (add_last-append text (y ∷ s) e)

    copied :
        (from : Bytes) (s t : List (TarEntry × Bytes)) (e : TarEntry)
        → t ≡ s ++ (e, []) ∷ []
        → on_layer t (act (copy_data layer from)) true ≡ s ++ (e, contents from) ∷ []
    copied from s t e h = rw (equal_refl layer, h) (add_last-append (contents from) s e)

    -- The content of a file behind its header.
    file-Adds :
        (path : Bytes) (s t : List (TarEntry × Bytes)) (e : TarEntry)
        → t ≡ s ++ (e, []) ∷ []
        → Given on_layer o (add_content layer path file_kind) (Adds (e, contents path) s) t
    file-Adds path s t e h =
        then-Given on_layer o _ _ (λ u w. w ≡ s ++ (e, []) ∷ []) _ t
          (perform-Given on_layer o (open_file path) _ t h)
          λ u w k.
            deferring-Given on_layer o (close_file path) _ _ w
              (perform-Given on_layer o (copy_data layer path) _ w (copied path s w e k))

    -- A header that no content follows.
    plain-Adds :
        (s : List (TarEntry × Bytes)) (e : TarEntry)
        → Given on_layer o (perform (write_header layer e) >>= λ u. pure tt) (Adds (e, []) s) s
    plain-Adds s e =
        then-Given on_layer o _ _ (λ u w. w ≡ s ++ (e, []) ∷ []) _ s
          (perform-Given on_layer o (write_header layer e) _ s (header_written s e))
          λ u w k. pure-Given on_layer o tt _ w k

    -- What the packing of one path adds.
    path-Adds :
        (kind : Kind) (c : ℕ) (rest : Bytes) (mode : ℕ) (link_to content : Bytes)
        (s : List (TarEntry × Bytes))
        → let path = join_path root (c ∷ rest) in
          IsRead kind link_to content (o (read_link path)) (contents path)
          → Given on_layer o
              (pack_rel layer root kind mode (c ∷ rest))
              (Adds (header_of kind (c ∷ rest) mode link_to, content) s)
              s
    unfolding ◌>>=◌
    path-Adds dir_kind c rest mode link_to content s (e, k) = rw (e, k) (plain-Adds s _)
    path-Adds other_kind c rest mode link_to content s (e, k) = rw (e, k) (plain-Adds s _)
    path-Adds file_kind c rest mode link_to content s (e, k) =
        rw (e, k)
          (then-Given on_layer o _ _
            (λ u w. w ≡ s ++ (header_of file_kind (c ∷ rest) mode [], []) ∷ []) _ s
            (perform-Given on_layer o (write_header layer _) _ s (header_written s _))
            λ u w k. file-Adds (join_path root (c ∷ rest)) s w _ k)
    path-Adds link_kind c rest mode link_to content s (e, k) =
        ask-Given on_layer o (read_link (join_path root (c ∷ rest))) _ _ s
          (rw (e, k) (plain-Adds s _))
    path-Adds socket_kind c rest mode link_to content s k = elim k [ ]

    visits-Add :
        (found : List Found) (s : List (TarEntry × Bytes))
        → All (IsReadAs o root) found
        → Given on_layer o
            (each (pack_visit layer root) (map visit_of found))
            (λ u t. t ≡ s ++ map entry_of found)
            s
    unfolding each
    visits-Add [] s h = pure-Given on_layer o tt _ s (sym (append-nil s))
    visits-Add (f ∷ found) s (read, h) =
        then-Given on_layer o _ _ (Adds (entry_of f) s) _ s
          (path-Adds f.kind f.first f.rest f.mode f.link_to f.content s read)
          λ u t k.
            subst
              (λ w.
                Given on_layer o (each (pack_visit layer root) (map visit_of found)) (λ u t. t ≡ w)
                  t)
              (ap (λ w. w ++ map entry_of found) k
                ∙ append_assoc s (entry_of f ∷ []) (map entry_of found))
              (visits-Add found t h)

    -- The root itself is not packed.
    walk-Adds :
        (root_mode : ℕ) (found : List Found) (s : List (TarEntry × Bytes))
        → All (IsReadAs o root) found
        → Given on_layer o
            (each (pack_visit layer root) (root_visit root_mode ∷ map visit_of found))
            (λ u t. t ≡ s ++ map entry_of found)
            s
    unfolding each ◌>>=◌
    walk-Adds root_mode found s h = visits-Add found s h

    -- The archive that createLayerTarball leaves in its file.
    create_layer_tarball-entries :
        (root_mode : ℕ) (found : List Found) (s : List (TarEntry × Bytes))
        → o (walk root) ≡ root_visit root_mode ∷ map visit_of found
        → All (IsReadAs o root) found
        → Given on_layer o (create_layer_tarball root layer) (λ u t. t ≡ map entry_of found) s
    unfolding create_layer_tarball
    create_layer_tarball-entries root_mode found s walked h =
        then-Given on_layer o _ _ (λ u t. t ≡ []) _ s
          (perform-Given on_layer o (create_file layer 0o666) _ s (rw (equal_refl layer) refl))
          λ u t k. deferring-Given on_layer o (close_file layer) _ _ t (
            ask-Given on_layer o (walk root) _ _ t
              (rw (walked, k) (walk-Adds root_mode found [] h)))

-- What is left behind a layer that is packed and unpacked.
abbrev pub IsCarried : Bytes → List Found → Files → List (TarEntry × Bytes) → Type 0
IsCarried dest found t entries =
    Ends on_disk (extract_layer dest (some (record { entries = entries; complete = true })))
      (λ u t'.
        All (IsMirrored dest t') found
        × ((q : Bytes) → mem q (map (mirror dest) found) ≡ false → t' q ≡ t q))
      (λ t'. Unit) t

-- The system answers createLayerTarball with the same rootfs throughout, without a socket, a name
-- that begins with ".wh." or a path that stands twice. Then createLayerTarball fails only where the
-- system refuses a call, and where it returns, the archive that it has written, unpacked by
-- extractLayer with no error in a directory at whose paths nothing stands, leaves every file of the
-- rootfs with its content and every symbolic link with its target under the same paths, and changes
-- nothing else, whatever the system answers then. No directory above the paths is a symbolic link.
pub create_layer_tarball-IsCarried :
    (contents : Bytes → Bytes) (o : (c : Call) → Answer c) (root layer dest : Bytes) (root_mode : ℕ)
    (found : List Found) (before : List (TarEntry × Bytes)) (t : Files)
    → o (walk root) ≡ root_visit root_mode ∷ map visit_of found
    → All (IsReadAs contents layer o root) found
    → distinct (map (mirror dest) found) ≡ true
    → All (CanMirror dest t) found
    → Given
        (on_layer contents layer)
        o
        (create_layer_tarball root layer)
        (λ u. IsCarried dest found t)
        before
create_layer_tarball-IsCarried contents o root layer dest root_mode found before t walked read d h =
    weaken-Given (on_layer contents layer) o _ (λ u entries. entries ≡ map entry_of found) _ before
      (λ u entries e.
        subst (IsCarried dest found t) (sym e) (extract_layer-IsMirrored dest found t d h))
      (create_layer_tarball-entries contents layer o root root_mode found before walked read)
