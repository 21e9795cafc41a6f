-- ===== src/Ociimage/Packed.antt =====
-- The names of a layer that is packed, as its unpacking reads them.
use hacker_os_builder.Prelude.{
  ℕ, Bool, true, false, List, [], ◌∷◌, ◌++◌, Bytes, codes, equal, is_empty, ◌==◌, ◌≡◌, refl, ap,
  ◌∙◌, Bool-cases, inl, inr, arith, equal_iff,
}
use hacker_os_builder.Text.Search.{has_prefix}
use hacker_os_builder.Text.Pieces.{split, onto_head}
use hacker_os_builder.System.{Kind, dir_kind, file_kind, link_kind, other_kind, socket_kind}
use hacker_os_builder.System.Components.{
  is_rooted, join_to, go_along, components, base_name, last_part,
}
use hacker_os_builder.Ociimage.Pull.{opaque_name, whiteout_prefix}
use hacker_os_builder.Ociimage.Push.{name_of}

-- A part more at the end, where there is one already.
onto_head-append :
    (x : ℕ) (ps : List Bytes)
    → is_empty ps ≡ false
    → onto_head x (ps ++ [] ∷ []) ≡ onto_head x ps ++ [] ∷ []
onto_head-append x [] h = cc
onto_head-append x (p ∷ ps) h = refl

onto_head_some : (x : ℕ) (ps : List Bytes) → is_empty (onto_head x ps) ≡ false
onto_head_some x [] = refl
onto_head_some x (p ∷ ps) = refl

split_some : (c : ℕ) (s : Bytes) → is_empty (split c s) ≡ false
unfolding split
split_some c [] = refl
split_some c (x ∷ s) = elim (Bool-cases (x == c)) [
  | inl same ↦ rw same refl
  | inr other ↦ rw other (onto_head_some x (split c s))
]

split_last : (c : ℕ) (s : Bytes) → split c (s ++ c ∷ []) ≡ split c s ++ [] ∷ []
unfolding split
split_last c [] = ground arith
split_last c (x ∷ s) = elim (Bool-cases (x == c)) [
  | inl same ↦ rw same (ap (◌∷◌ []) (split_last c s))
  | inr other ↦ rw other (ap (onto_head x) (split_last c s) ∙ onto_head-append x _ (split_some c s))
]

go_along_last :
    (rooted : Bool) (parts ps : List Bytes)
    → go_along rooted ps (parts ++ [] ∷ []) ≡ go_along rooted ps parts
unfolding go_along
go_along_last rooted [] ps = refl
go_along_last rooted (p ∷ parts) ps = go_along_last rooted parts _

last_part_last :
    (parts : List Bytes) (found : Bytes)
    → last_part found (parts ++ [] ∷ []) ≡ last_part found parts
last_part_last [] found = refl
last_part_last (p ∷ parts) found = last_part_last parts _

-- The slash behind the name of a directory changes nothing.
pub join_to-name_of :
    (dest : Bytes) (kind : Kind) (rel : Bytes)
    → join_to dest (split b'/' (name_of kind rel)) ≡ join_to dest (split b'/' rel)
unfolding join_to
join_to-name_of dest dir_kind rel =
    ap (go_along (is_rooted dest) (components dest)) (split_last b'/' rel)
    ∙ go_along_last (is_rooted dest) (split b'/' rel) (components dest)
join_to-name_of dest file_kind rel = refl
join_to-name_of dest link_kind rel = refl
join_to-name_of dest other_kind rel = refl
join_to-name_of dest socket_kind rel = refl

pub base_name-name_of :
    (kind : Kind) (c : ℕ) (rel : Bytes) → base_name (name_of kind (c ∷ rel)) ≡ base_name (c ∷ rel)
unfolding base_name
base_name-name_of dir_kind c rel =
    ap (last_part (codes "/")) (split_last b'/' (c ∷ rel))
    ∙ last_part_last (split b'/' (c ∷ rel)) (codes "/")
base_name-name_of file_kind c rel = refl
base_name-name_of link_kind c rel = refl
base_name-name_of other_kind c rel = refl
base_name-name_of socket_kind c rel = refl

-- The last part of the name looks like a whiteout.
abbrev pub is_whiteout : Bytes → Bool
is_whiteout rel = has_prefix (base_name rel) whiteout_prefix

opaque_is_whiteout :
    (name : Bytes) → equal name opaque_name ≡ true → has_prefix name whiteout_prefix ≡ true
unfolding has_prefix
opaque_is_whiteout name h = rw ((equal_iff name opaque_name).0 h) refl

pub not_opaque :
    (name : Bytes) → has_prefix name whiteout_prefix ≡ false → equal name opaque_name ≡ false
not_opaque name h = elim (Bool-cases (equal name opaque_name)) [
  | inl same ↦ let e = opaque_is_whiteout name same in cc
  | inr other ↦ other
]
