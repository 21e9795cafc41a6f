-- ===== src/Liveparse/Packages.antt =====
-- The package list of a project, and the names in its files.
use hacker_os_builder.Prelude.{
  true, ◌||◌, Option, none, some, List, [], ◌∷◌, ◌++◌, if◌then◌else◌, Bytes, codes, mem, mem-append,
  distinct, distinct-concat, equal_iff, ◌≡◌, refl, arith, Bool-cases, inl, inr, ◌∙◌, ap, sym,
}
use mathlib.Core.Path.{subst}
use hacker_os_builder.Text.Order.{
  sort_by, id_key, is_sorted, sort_by-is_sorted, sort_by-mem, sort_by-distinct,
}
use hacker_os_builder.Text.Pieces.{split}
use hacker_os_builder.Liveparse.{
  Entry, listed, Parsed, got, broken, ◌>>!◌, join_path, kept_lines, names_in,
  read_package_list_file, add_packages, has_kind, collect_packages, parse_package_lists,
}

file_names : Option Bytes → List Bytes
file_names none = []
file_names (some text) = names_in (kept_lines (split b'\n' text))

-- The names in the package lists among the entries.
pub listed_names : List Entry → List Bytes
listed_names [] = []
listed_names (e ∷ entries) =
    let rest = listed_names entries in
    if has_kind (codes ".list.chroot") e then file_names e.contents ++ rest else rest

add_packages-mem :
    (n : Bytes) (packages names : List Bytes)
    → mem n (add_packages packages names) ≡ (mem n packages || mem n names)
unfolding add_packages mem
add_packages-mem n packages [] = ground arith
add_packages-mem n packages (k ∷ names) = elim (Bool-cases (mem k packages)) [
  | inl old ↦ rw old (ground (arith, add_packages-mem n packages names, old, equal_iff k n))
  | inr new ↦ rw new (
      ground (arith, add_packages-mem n (packages ++ k ∷ []) names, mem-append n packages (k ∷ [])))
]

add_packages-distinct :
    (packages names : List Bytes)
    → distinct packages ≡ true
    → distinct (add_packages packages names) ≡ true
unfolding add_packages
add_packages-distinct packages [] h = h
add_packages-distinct packages (k ∷ names) h = elim (Bool-cases (mem k packages)) [
  | inl old ↦ rw old (add_packages-distinct packages names h)
  | inr new ↦
      rw new (add_packages-distinct (packages ++ k ∷ []) names (distinct-concat k packages h new))
]

pub bind-got {ℓ κ} :
    {V : Type ℓ} {W : Type κ} (r : Parsed V) (f : V → Parsed W) {w : W}
    → (r >>! f) ≡ got w
    → (v : V) × (r ≡ got v) × (f v ≡ got w)
bind-got (got v) f h = (v, refl, h)
bind-got (broken e) f h = cc

pub got-injective {ℓ} : {V : Type ℓ} {v w : V} → got v ≡ got w → v ≡ w
got-injective h = cc

read_package_list_file-names :
    (path : Bytes) (contents : Option Bytes) (names : List Bytes)
    → read_package_list_file path contents ≡ got names
    → names ≡ file_names contents
unfolding read_package_list_file file_names
read_package_list_file-names path none names h = cc
read_package_list_file-names path (some text) names h = sym (got-injective h)

collect_packages-mem :
    (dir n : Bytes) (packages : List Bytes) (entries : List Entry) (found : List Bytes)
    → collect_packages dir packages entries ≡ got found
    → mem n found ≡ (mem n packages || mem n (listed_names entries))
unfolding collect_packages listed_names mem
collect_packages-mem dir n packages [] found h = ap (mem n) (sym (got-injective h)) ∙ ground arith
collect_packages-mem dir n packages (e ∷ entries) found h =
    elim (Bool-cases (has_kind (codes ".list.chroot") e)) [
      | inr other ↦ rw other (collect_packages-mem dir n packages entries found (rw other at h))
      | inl kind ↦
          let (names, read, later) =
            bind-got (read_package_list_file (join_path dir e.name) e.contents) _ (rw kind at h) in
          let same =
            ap (mem n)
              (read_package_list_file-names (join_path dir e.name) e.contents names read) in
          rw kind (
            collect_packages-mem dir n (add_packages packages names) entries found later
            ∙ ground (
              arith,
              add_packages-mem n packages names,
              same,
              mem-append n (file_names e.contents) (listed_names entries),
            ))
    ]

collect_packages-distinct :
    (dir : Bytes) (packages : List Bytes) (entries : List Entry) (found : List Bytes)
    → distinct packages ≡ true
    → collect_packages dir packages entries ≡ got found
    → distinct found ≡ true
unfolding collect_packages
collect_packages-distinct dir packages [] found d h = rw (got-injective h) at d
collect_packages-distinct dir packages (e ∷ entries) found d h =
    elim (Bool-cases (has_kind (codes ".list.chroot") e)) [
      | inr other ↦ collect_packages-distinct dir packages entries found d (rw other at h)
      | inl kind ↦
          let (names, read, later) =
            bind-got (read_package_list_file (join_path dir e.name) e.contents) _ (rw kind at h) in
          collect_packages-distinct dir (add_packages packages names) entries found
            (add_packages-distinct packages names d) later
    ]

-- A successful parsePackageLists gives the names of the list files in the directory, each name
-- that occurs there and no other, once, in the order of Go strings.
pub parse_package_lists-mem :
    (dir : Bytes) (entries : List Entry) (packages : List Bytes)
    → parse_package_lists dir (listed entries) ≡ got packages
    → (is_sorted id_key packages ≡ true)
      × (distinct packages ≡ true)
      × ((n : Bytes) → mem n packages ≡ mem n (listed_names entries))
unfolding parse_package_lists mem distinct
parse_package_lists-mem dir entries packages h =
    let (found, collected, sorted) = bind-got (collect_packages dir [] entries) _ h in
    let same : sort_by id_key found ≡ packages = got-injective sorted in
    (
      subst (λ ps. is_sorted id_key ps ≡ true) same (sort_by-is_sorted id_key found),
      ap distinct (sym same)
          ∙ sort_by-distinct found
          ∙ collect_packages-distinct dir [] entries found refl collected,
      λ n.
          ap (mem n) (sym same)
          ∙ sort_by-mem n found
          ∙ collect_packages-mem dir n [] entries found collected,
    )
