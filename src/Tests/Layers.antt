-- ===== src/Tests/Layers.antt =====
-- The theorems about what an unpacked layer leaves at concrete inputs.
use hacker_os_builder.Prelude.{
  List, map, mem, distinct, All, true, none, some, [], ◌∷◌, codes, ◌≡◌, refl, equal,
}
use hacker_os_builder.Text.Search.{has_prefix}
use hacker_os_builder.Text.Pieces.{split, join}
use hacker_os_builder.System.{
  dir_kind, link_kind, file_kind, Call, Answer, act, walk, read_link, read_dir, read_file, glob,
  get_env, fetch, read_layers, no_dir,
}
use hacker_os_builder.System.Components.{base_name, components, join_to, go_along, render}
use hacker_os_builder.System.Ends.{Ends}
use hacker_os_builder.Ociimage.Pull.{extract_layer}
use hacker_os_builder.Ociimage.Disk.{Files, on_disk}
use hacker_os_builder.Ociimage.Unpacked.{target, AreUnpacked, IsNew, extract_layer-Unpacked}
use hacker_os_builder.Ociimage.Mirrored.{Found, mirror, CanMirror}
use hacker_os_builder.Ociimage.Push.{create_layer_tarball}
use hacker_os_builder.Ociimage.Layer.{
  visit_of, root_visit, on_layer, IsCarried, create_layer_tarball-IsCarried,
}
use hacker_os_builder.System.Given.{Given}
use hacker_os_builder.Tests.Willing.{archive}

abbrev nothing : Files
nothing q = none

archive-distinct : distinct (map (target (codes "/w/rootfs")) archive.entries) ≡ true
unfolding distinct mem
archive-distinct = refl

archive-IsNew : All (IsNew (codes "/w/rootfs") nothing) archive.entries
unfolding has_prefix base_name split
archive-IsNew = ((refl, refl), tt)

extract_layer-Unpacked_example :
    Ends on_disk
      (extract_layer (codes "/w/rootfs") (some archive))
      (λ u. AreUnpacked (codes "/w/rootfs") archive.entries nothing)
      (λ t'. Unit)
      nothing
extract_layer-Unpacked_example =
    extract_layer-Unpacked (codes "/w/rootfs") archive nothing archive-distinct archive-IsNew

-- A directory, a file in it and a link.
abbrev small_rootfs : List Found
small_rootfs =
    record {
      kind = dir_kind;
      first = b'e';
      rest = codes "tc";
      mode = 0o755;
      link_to = [];
      content = [];
    }
    ∷ record {
      kind = file_kind;
      first = b'e';
      rest = codes "tc/x";
      mode = 0o644;
      link_to = [];
      content = codes "text";
    }
    ∷ record {
      kind = link_kind;
      first = b'b';
      rest = codes "in";
      mode = 0o777;
      link_to = codes "usr/bin";
      content = [];
    }
    ∷ []

small_rootfs-distinct : distinct (map (mirror (codes "/w/rootfs")) small_rootfs) ≡ true
unfolding distinct mem equal join_to components go_along render split join
small_rootfs-distinct = refl

small_rootfs-CanMirror : All (CanMirror (codes "/w/rootfs") nothing) small_rootfs
unfolding has_prefix base_name split
small_rootfs-CanMirror = ((refl, refl), ((refl, refl), ((refl, refl), tt)))

-- A system that grants every call and has this rootfs in /r.
abbrev packing : (c : Call) → Answer c
packing (act a) = true
packing (walk root) = root_visit 0o755 ∷ map visit_of small_rootfs
packing (read_link path) = some (codes "usr/bin")
packing (read_dir dir) = no_dir
packing (read_file path) = none
packing (glob dir pattern) = none
packing (get_env name) = []
packing (fetch url) = none
packing (read_layers reference) = none

create_layer_tarball-IsCarried_example :
    Given
      (on_layer (λ path. codes "text") (codes "/w/layer.tar.gz"))
      packing
      (create_layer_tarball (codes "/r") (codes "/w/layer.tar.gz"))
      (λ u. IsCarried (codes "/w/rootfs") small_rootfs nothing)
      []
create_layer_tarball-IsCarried_example =
    create_layer_tarball-IsCarried (λ path. codes "text") packing (codes "/r")
      (codes "/w/layer.tar.gz") (codes "/w/rootfs") 0o755 small_rootfs [] nothing refl
      ((refl, refl), ((refl, refl), ((refl, refl), tt))) small_rootfs-distinct
      small_rootfs-CanMirror
