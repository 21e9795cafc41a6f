-- ===== src/Download/Version.antt =====
-- internal/download/debostree.go: the newest version of deb-ostree, read off the page of releases.
use hacker_os_builder.Prelude.{
  ◌&&◌, Option, none, some, [], ◌∷◌, ◌++◌, if◌then◌else◌, leb, ◌==◌, Bytes, codes, length, drop,
  ◌≡◌, refl,
}
use hacker_os_builder.Text.Search.{has_prefix, has_byte}

abbrev pub releases_page_url : Bytes
releases_page_url = codes "https://github.com/HackerOS-Linux-System/deb-ostree/releases"

abbrev pub fallback_version : Bytes
fallback_version = codes "v0.0.1"

-- The text before the tag in the expression `reReleaseTag`.
abbrev tag_path : Bytes
tag_path = codes "/HackerOS-Linux-System/deb-ostree/releases/tag/"

-- The bytes that end a tag: quotes and `\s`.
abbrev tag_end : Bytes
tag_end = b'"' ∷ b'\'' ∷ b' ' ∷ b'\t' ∷ b'\n' ∷ 0x0C ∷ b'\r' ∷ []

-- `[^"'\s]*`, as long as it goes
unfoldable take_tag : Bytes → Bytes
take_tag [] = []
take_tag (c ∷ s) = let rest = take_tag s in if has_byte c tag_end then [] else c ∷ rest

-- `v[0-9][^"'\s]*` at the front
unfoldable match_tag : Bytes → Option Bytes
match_tag (v ∷ d ∷ s) =
    if v == b'v' && leb b'0' d && leb d b'9' then some (v ∷ d ∷ take_tag s) else none
match_tag _ = none

abbrev match_here : Bytes → Option Bytes
match_here s = if has_prefix s tag_path then match_tag (drop (length tag_path) s) else none

-- The group of the leftmost match.
unfoldable pub find_tag : Bytes → Option Bytes
unfolding match_tag take_tag
find_tag [] = none
find_tag (c ∷ s) =
    let later = find_tag s in elim (match_here (c ∷ s)) [ some tag ↦ some tag | none ↦ later ]

-- The page is `none` where it is not fetched or not answered with 200.
unfoldable pub scrap_latest_tag : Option Bytes → Option Bytes
unfolding find_tag
scrap_latest_tag none = none
scrap_latest_tag (some page) = find_tag page

unfoldable pub latest_deb_ostree_version : Option Bytes → Bytes
unfolding scrap_latest_tag
latest_deb_ostree_version page = elim (scrap_latest_tag page) [
  | none ↦ fallback_version
  | some tag ↦ tag
]

version_runs :
    latest_deb_ostree_version (
      some (
        codes "<a href=\"/HackerOS-Linux-System/deb-ostree/releases/tag/latest\">"
        ++ codes "<a href=\"/HackerOS-Linux-System/deb-ostree/releases/tag/v0.2.0\">"))
    ≡ codes "v0.2.0"
unfolding latest_deb_ostree_version has_prefix has_byte
version_runs = refl
