-- ===== src/Tests/Hooks.antt =====
-- The theorem about the hooks of a project at a concrete directory.
use mathlib.Core.List.{Perm}
use hacker_os_builder.Prelude.{true, false, none, List, [], ◌∷◌, ◌++◌, map, Bytes, codes, ◌≡◌, refl}
use hacker_os_builder.Text.Search.{has_suffix}
use hacker_os_builder.Text.Order.{is_sorted, less, insert_by, sort_by}
use hacker_os_builder.Liveparse.{
  Entry, absent, listed, Tree, HookScript, Project, got, hook_name, hook_scripts, parse_hooks,
  parse_package_lists, parse_archives, parse_project,
}
use hacker_os_builder.Liveparse.Hooks.{hooks_dir, hook_files, script_in, parse_project-hooks}

abbrev hook_entry : Bytes → Entry
hook_entry name = record { name = name; is_dir = false; contents = none }

abbrev hook_entries : List Entry
hook_entries =
    hook_entry (codes "b.hook.chroot")
    ∷ hook_entry (codes "README")
    ∷ hook_entry (codes "a.hook.chroot")
    ∷ []

abbrev tree : Tree
tree = record {
  root = codes "/p";
  config_is_dir = true;
  package_lists = absent;
  hooks_normal = listed hook_entries;
  includes_is_dir = false;
  archives = absent;
}

abbrev hook : Bytes → HookScript
hook name = record { name = name; path = codes "/p/config/hooks/normal/" ++ name }

abbrev project : Project
project = record {
  root_dir = codes "/p";
  packages = [];
  hooks = hook (codes "a.hook.chroot") ∷ hook (codes "b.hook.chroot") ∷ [];
  includes_chroot = [];
  extra_sources = [];
  extra_keys = [];
}

tree-parsed : parse_project tree ≡ got project
unfolding parse_project parse_package_lists parse_hooks parse_archives hook_scripts sort_by
    insert_by less has_suffix
tree-parsed = refl

parse_project-hooks_example :
    (is_sorted hook_name project.hooks ≡ true)
    × Perm project.hooks (map (script_in (hooks_dir tree)) (hook_files hook_entries))
parse_project-hooks_example = parse_project-hooks tree hook_entries project refl tree-parsed
