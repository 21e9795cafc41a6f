-- ===== src/Liveparse.antt =====
-- internal/liveparse/project.go: what a project directory asks for. The directories that it reads
-- are values here: their entries in the order of os.ReadDir, and the contents of their files.
pub mod Packages
pub mod Hooks
use hacker_os_builder.Prelude.{
  is_empty, ℕ, Bool, true, false, not, ◌&&◌, ◌||◌, Option, none, some, List, [], ◌∷◌, ◌++◌,
  if◌then◌else◌, Bytes, codes, mem,
}
use hacker_os_builder.Text.Search.{has_prefix, has_suffix}
use hacker_os_builder.Text.Space.{trim_space, fields}
use hacker_os_builder.Text.Pieces.{split}
use hacker_os_builder.Text.Order.{sort_by, id_key}

-- `contents` is `none` where os.ReadFile fails.
pub record Entry : Type 0 where
  pub name : Bytes
  pub is_dir : Bool
  pub contents : Option Bytes

-- What os.ReadDir answers.
pub data Listing : Type 0 where
  absent unreadable : Listing
  listed : List Entry → Listing

-- The parts of a project on disk; `root` is its path.
pub record Tree : Type 0 where
  pub root : Bytes
  pub config_is_dir : Bool
  pub package_lists : Listing
  pub hooks_normal : Listing
  pub includes_is_dir : Bool
  pub archives : Listing

pub record HookScript : Type 0 where
  pub name : Bytes
  pub path : Bytes

pub record Project : Type 0 where
  pub root_dir : Bytes
  pub packages : List Bytes
  pub hooks : List HookScript
  pub includes_chroot : Bytes
  pub extra_sources : List Bytes
  pub extra_keys : List Bytes

pub data ProjectError : Type 0 where
  no_config_dir : ProjectError
  unreadable_dir : Bytes → ProjectError
  unreadable_file : Bytes → ProjectError

pub data Parsed {ℓ} (V : Type ℓ) : Type ℓ where
  got : V → Parsed V
  broken : ProjectError → Parsed V

infixl 5 ◌>>!◌
abbrev pub ◌>>!◌ {ℓ κ} : {V : Type ℓ} {W : Type κ} → Parsed V → (V → Parsed W) → Parsed W
got v >>! f = f v
broken e >>! f = broken e

-- `filepath.Join` of a clean path, neither empty nor the root, and a name.
abbrev pub join_path : Bytes → Bytes → Bytes
join_path dir name = dir ++ b'/' ∷ name

-- A line that is blank or a comment is left out, the others are trimmed.
unfoldable pub kept_lines : List Bytes → List Bytes
kept_lines [] = []
kept_lines (raw ∷ lines) =
    let line = trim_space raw in
    let rest = kept_lines lines in
    if is_empty line || has_prefix line (b'#' ∷ []) then rest else line ∷ rest

unfoldable pub read_lines : Bytes → Option Bytes → Parsed (List Bytes)
unfolding kept_lines
read_lines path none = broken (unreadable_file path)
read_lines path (some text) = got (kept_lines (split b'\n' text))

unfoldable pub names_in : List Bytes → List Bytes
names_in [] = []
names_in (line ∷ lines) = fields line ++ names_in lines

unfoldable pub read_package_list_file : Bytes → Option Bytes → Parsed (List Bytes)
unfolding kept_lines names_in
read_package_list_file path none = broken (unreadable_file path)
read_package_list_file path (some text) = got (names_in (kept_lines (split b'\n' text)))

-- `seen` holds the names that are in `packages`.
unfoldable pub add_packages : List Bytes → List Bytes → List Bytes
unfolding mem
add_packages packages [] = packages
add_packages packages (n ∷ names) =
    if mem n packages then add_packages packages names else add_packages (packages ++ n ∷ []) names

-- An entry that a loop takes: a file with the suffix.
abbrev pub has_kind : Bytes → Entry → Bool
has_kind suffix e = not e.is_dir && has_suffix e.name suffix

unfoldable pub collect_packages : Bytes → List Bytes → List Entry → Parsed (List Bytes)
collect_packages dir packages [] = got packages
collect_packages dir packages (e ∷ entries) =
    let skipped = collect_packages dir packages entries in
    if has_kind (codes ".list.chroot") e
    then (read_package_list_file (join_path dir e.name) e.contents >>! λ names.
        collect_packages dir (add_packages packages names) entries)
    else skipped

unfoldable pub parse_package_lists : Bytes → Listing → Parsed (List Bytes)
parse_package_lists dir absent = got []
parse_package_lists dir unreadable = broken (unreadable_dir dir)
parse_package_lists dir (listed entries) =
    collect_packages dir [] entries >>! λ packages. got (sort_by id_key packages)

unfoldable pub hook_scripts : Bytes → List Entry → List HookScript
hook_scripts dir [] = []
hook_scripts dir (e ∷ entries) =
    let rest = hook_scripts dir entries in
    if has_kind (codes ".hook.chroot") e
    then record { name = e.name; path = join_path dir e.name } ∷ rest
    else rest

abbrev pub hook_name : HookScript → Bytes
hook_name h = h.name

unfoldable pub parse_hooks : Bytes → Listing → Parsed (List HookScript)
unfolding hook_scripts
parse_hooks dir absent = got []
parse_hooks dir unreadable = broken (unreadable_dir dir)
parse_hooks dir (listed entries) = got (sort_by hook_name (hook_scripts dir entries))

-- The sources and the keys, in the order of the entries.
unfoldable pub collect_archives :
    Bytes → List Bytes → List Bytes → List Entry → Parsed (List Bytes × List Bytes)
collect_archives dir sources keys [] = got (sources, keys)
collect_archives dir sources keys (e ∷ entries) =
    let path = join_path dir e.name in
    let skipped = collect_archives dir sources keys entries in
    let keyed = collect_archives dir sources (keys ++ path ∷ []) entries in
    if has_kind (codes ".list.chroot") e
    then (read_lines path e.contents >>! λ lines.
        collect_archives dir (sources ++ lines) keys entries)
    else if has_kind (codes ".key.chroot") e
    then keyed
    else skipped

unfoldable pub parse_archives : Bytes → Listing → Parsed (List Bytes × List Bytes)
unfolding collect_archives
parse_archives dir absent = got ([], [])
parse_archives dir unreadable = broken (unreadable_dir dir)
parse_archives dir (listed entries) = collect_archives dir [] [] entries

unfoldable pub parse_project : Tree → Parsed Project
parse_project t =
    let config_dir = join_path t.root (codes "config") in
    if not t.config_is_dir
    then broken no_config_dir
    else (parse_package_lists (join_path config_dir (codes "package-lists")) t.package_lists
        >>! λ packages.
            (parse_hooks (join_path config_dir (codes "hooks/normal")) t.hooks_normal >>! λ hooks.
            (parse_archives (join_path config_dir (codes "archives")) t.archives >>! λ archives.
            got (record {
              root_dir = t.root;
              packages = packages;
              hooks = hooks;
              includes_chroot =
                  if t.includes_is_dir then join_path config_dir (codes "includes.chroot") else [];
              extra_sources = archives.0;
              extra_keys = archives.1;
            }))))
