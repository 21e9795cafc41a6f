-- ===== src/System/Components.antt =====
-- Paths as the lists of their components, the last one first, as `filepath.Clean` leaves them.
use hacker_os_builder.Prelude.{
  Bool, true, false, ◌||◌, List, [], ◌∷◌, ◌++◌, if◌then◌else◌, Bytes, codes, equal, is_empty,
  reverse, All, ◌≡◌, refl, ap, sym, ◌∙◌, append_assoc, Bool-cases, inl, inr, ◌==◌,
}
use hacker_os_builder.Text.Pieces.{split, join}

abbrev dot : Bytes
dot = codes "."

abbrev pub dots : Bytes
dots = codes ".."

abbrev pub is_rooted : Bytes → Bool
is_rooted [] = false
is_rooted (c ∷ path) = c == b'/'

-- `..` behind some components: above the root there is the root, and above a relative path `..`.
abbrev up : Bool → List Bytes → List Bytes
up rooted [] = if rooted then [] else dots ∷ []
up rooted (p ∷ ps) = if equal p dots then dots ∷ p ∷ ps else ps

abbrev pub go_to : Bool → List Bytes → Bytes → List Bytes
go_to rooted ps p =
    if is_empty p || equal p dot then ps else if equal p dots then up rooted ps else p ∷ ps

unfoldable pub go_along : Bool → List Bytes → List Bytes → List Bytes
go_along rooted ps [] = ps
go_along rooted ps (p ∷ more) = go_along rooted (go_to rooted ps p) more

-- The components of a cleaned path.
unfoldable pub components : Bytes → List Bytes
components path = go_along (is_rooted path) [] (split b'/' path)

-- `filepath.Join` of a path, not empty, and others, given by their parts between slashes.
unfoldable pub join_to : Bytes → List Bytes → List Bytes
join_to path parts = go_along (is_rooted path) (components path) parts

-- The text of a cleaned path.
unfoldable pub render : Bool → List Bytes → Bytes
render true ps = b'/' ∷ join (b'/' ∷ []) (reverse ps)
render false [] = dot
render false (p ∷ ps) = join (b'/' ∷ []) (reverse (p ∷ ps))

-- The parts before the last slash.
abbrev pub front_parts : List Bytes → List Bytes
front_parts [] = []
front_parts (p ∷ []) = []
front_parts (p ∷ q ∷ ps) = p ∷ front_parts (q ∷ ps)

-- `filepath.Dir`, its components in their order.
unfoldable pub dir_parts : Bytes → List Bytes
dir_parts path = reverse (go_along (is_rooted path) [] (front_parts (split b'/' path)))

abbrev pub last_part : Bytes → List Bytes → Bytes
last_part found [] = found
last_part found (p ∷ ps) = last_part (if is_empty p then found else p) ps

-- `filepath.Base`
unfoldable pub base_name : Bytes → Bytes
base_name [] = dot
base_name (c ∷ path) = last_part (codes "/") (split b'/' (c ∷ path))

components_runs :
    (render true (join_to (codes "/w/rootfs") (split b'/' (codes "./etc//x/")))
      ≡ codes "/w/rootfs/etc/x")
    × (render true (join_to (codes "/w/rootfs") (split b'/' (codes "../../etc"))) ≡ codes "/etc")
    × (dir_parts (codes "/../a/b/c") ≡ codes "a" ∷ codes "b" ∷ [])
    × (base_name (codes "a/b//") ≡ codes "b")
unfolding render join_to components go_along split join dir_parts base_name equal
components_runs = (refl, refl, refl, refl)

-- A part that does not lead up.
abbrev pub IsPlain : Bytes → Type 0
IsPlain p = equal p dots ≡ false

-- Plain parts only add components, which are plain.
pub record IsLonger (ps qs : List Bytes) : Type 0 where
  pub added : List Bytes
  pub longer : qs ≡ added ++ ps
  pub plain : All IsPlain added

IsLonger-refl : (ps : List Bytes) → IsLonger ps ps
IsLonger-refl ps = record { added = []; longer = refl; plain = tt }

All-append_both : (xs ys : List Bytes) → All IsPlain xs → All IsPlain ys → All IsPlain (xs ++ ys)
All-append_both [] ys h k = k
All-append_both (x ∷ xs) ys h k = (h.0, All-append_both xs ys h.1 k)

IsLonger-trans : (ps qs rs : List Bytes) → IsLonger ps qs → IsLonger qs rs → IsLonger ps rs
IsLonger-trans ps qs rs h k = record {
  added = k.added ++ h.added;
  longer = k.longer ∙ ap (◌++◌ k.added) h.longer ∙ sym (append_assoc k.added h.added ps);
  plain = All-append_both k.added h.added k.plain h.plain;
}

go_to-IsLonger :
    (rooted : Bool) (ps : List Bytes) (p : Bytes) → IsPlain p → IsLonger ps (go_to rooted ps p)
go_to-IsLonger rooted ps p h = elim (Bool-cases (is_empty p || equal p dot)) [
  | inl skipped ↦ rw skipped (IsLonger-refl ps)
  | inr taken ↦ rw taken (rw h (record { added = p ∷ []; longer = refl; plain = (h, tt) }))
]

pub go_along-IsLonger :
    (rooted : Bool) (ps more : List Bytes)
    → All IsPlain more
    → IsLonger ps (go_along rooted ps more)
unfolding go_along
go_along-IsLonger rooted ps [] h = IsLonger-refl ps
go_along-IsLonger rooted ps (p ∷ more) h =
    IsLonger-trans ps (go_to rooted ps p) _ (go_to-IsLonger rooted ps p h.0)
      (go_along-IsLonger rooted (go_to rooted ps p) more h.1)
