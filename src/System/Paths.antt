-- ===== src/System/Paths.antt =====
-- Paths as path/filepath splits them.
use hacker_os_builder.Prelude.{
  Option, none, some, [], ◌∷◌, if◌then◌else◌, ◌==◌, Bytes, codes, is_empty, ◌≡◌, refl,
}

-- The text before the last slash.
unfoldable pub before_slash : Bytes → Option Bytes
before_slash [] = none
before_slash (c ∷ s) =
    let before = before_slash s in
    elim before [ some front ↦ some (c ∷ front) | none ↦ if c == b'/' then some [] else none ]

-- `filepath.Dir` of a clean path.
unfoldable pub dir_path : Bytes → Bytes
unfolding before_slash
dir_path path = elim (before_slash path) [
  | none ↦ codes "."
  | some front ↦ if is_empty front then codes "/" else front
]

-- The text behind the last slash.
unfoldable pub behind_slash : Bytes → Option Bytes
behind_slash [] = none
behind_slash (c ∷ s) =
    let behind = behind_slash s in
    elim behind [ some back ↦ some back | none ↦ if c == b'/' then some s else none ]

-- `filepath.Base` of a clean path, neither empty nor the root.
unfoldable pub base_path : Bytes → Bytes
unfolding behind_slash
base_path path = elim (behind_slash path) [ none ↦ path | some back ↦ back ]

paths_runs :
    (dir_path (codes "/a/b/c") ≡ codes "/a/b")
    × (dir_path (codes "/a") ≡ codes "/")
    × (dir_path (codes "a") ≡ codes ".")
    × (base_path (codes "/a/b/c") ≡ codes "c")
unfolding dir_path base_path
paths_runs = (refl, refl, refl, refl)
