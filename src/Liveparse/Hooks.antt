-- ===== src/Liveparse/Hooks.antt =====
-- The hooks of a project and their order.
use mathlib.Core.List.{Perm}
use hacker_os_builder.Prelude.{
  true, not, ◌&&◌, if◌then◌else◌, List, [], ◌∷◌, map, Bytes, codes, ◌≡◌, refl, ap, subst, inl, inr,
  Bool-cases,
}
use hacker_os_builder.Text.Search.{has_suffix}
use hacker_os_builder.Text.Order.{is_sorted, sort_by-is_sorted, sort_by-Perm}
use hacker_os_builder.Liveparse.{
  Entry, listed, Tree, HookScript, Project, got, join_path, hook_scripts, hook_name,
  parse_package_lists, parse_hooks, parse_archives, parse_project,
}
use hacker_os_builder.Liveparse.Packages.{bind-got, got-injective}

pub hooks_dir : Tree → Bytes
hooks_dir t = join_path (join_path t.root (codes "config")) (codes "hooks/normal")

-- The files whose names end in ".hook.chroot".
pub hook_files : List Entry → List Entry
hook_files [] = []
hook_files (e ∷ entries) =
    let rest = hook_files entries in
    if not e.is_dir && has_suffix e.name (codes ".hook.chroot") then e ∷ rest else rest

pub script_in : Bytes → Entry → HookScript
script_in dir e = record { name = e.name; path = join_path dir e.name }

hook_scripts_lem :
    (dir : Bytes) (entries : List Entry)
    → hook_scripts dir entries ≡ map (script_in dir) (hook_files entries)
unfolding hook_scripts hook_files script_in
hook_scripts_lem dir [] = refl
hook_scripts_lem dir (e ∷ entries) =
    elim (Bool-cases (not e.is_dir && has_suffix e.name (codes ".hook.chroot"))) [
      | inl hook ↦ rw hook (ap (λ hs. script_in dir e ∷ hs) (hook_scripts_lem dir entries))
      | inr other ↦ rw other (hook_scripts_lem dir entries)
    ]

abbrev AreHooks : Bytes → List Entry → List HookScript → Type 0
AreHooks dir entries hooks =
    (is_sorted hook_name hooks ≡ true) × Perm hooks (map (script_in dir) (hook_files entries))

parse_hooks-AreHooks :
    (dir : Bytes) (entries : List Entry) (hooks : List HookScript)
    → parse_hooks dir (listed entries) ≡ got hooks
    → AreHooks dir entries hooks
unfolding parse_hooks
parse_hooks-AreHooks dir entries hooks h = subst (AreHooks dir entries) (got-injective h) (
  sort_by-is_sorted hook_name _,
  subst (Perm _) (hook_scripts_lem dir entries) (sort_by-Perm hook_name _),
)

-- The hooks of a project that parses are the files of config/hooks/normal that end in
-- ".hook.chroot", each as often as it is listed, and no name stands before a smaller one.
pub parse_project-hooks :
    (t : Tree) (entries : List Entry) (p : Project)
    → t.hooks_normal ≡ listed entries
    → parse_project t ≡ got p
    → (is_sorted hook_name p.hooks ≡ true)
      × Perm p.hooks (map (script_in (hooks_dir t)) (hook_files entries))
unfolding parse_project hooks_dir
parse_project-hooks t entries p listing h = elim (Bool-cases t.config_is_dir) [
  | inr missing ↦ let e = rw missing at h in cc
  | inl there ↦
      let (packages, parsed, h1) =
        bind-got (parse_package_lists _ t.package_lists) _ (rw there at h) in
      let (hooks, sorted, h2) = bind-got (parse_hooks _ t.hooks_normal) _ h1 in
      let (archives, read, h3) = bind-got (parse_archives _ t.archives) _ h2 in
      let same : hooks ≡ p.hooks = ap (λ q. q.hooks) (got-injective h3) in
      subst (AreHooks (hooks_dir t) entries) same
        (parse_hooks-AreHooks _ entries hooks (rw listing at sorted))
]
