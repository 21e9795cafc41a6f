-- ===== src/Preflight/Missing.antt =====
-- The outcomes of the checks for tools.
use hacker_os_builder.Prelude.{
  Bool, true, ◌&&◌, ◌||◌, none, List, [], ◌∷◌, ◌++◌, Bytes, mem, equal_iff, is_empty, ◌≡◌, ◌↔◌,
  refl, arith, ◌∙◌,
}
use hacker_os_builder.Preflight.{
  Tool, cloud_tools, iso_tools, missing_tools, check_tools, check_cloud, check_iso, check_all,
}

-- Every binary that is not among those seen is found.
pub all_found : (Bytes → Bool) → List Bytes → List Tool → Bool
all_found look_path seen [] = true
all_found look_path seen (t ∷ tools) =
    (mem t.binary seen || look_path t.binary) && all_found look_path seen tools

-- A binary that was found need not be looked for again.
all_found-seen :
    (look_path : Bytes → Bool) (b : Bytes) (seen : List Bytes) (tools : List Tool)
    → look_path b ≡ true
    → all_found look_path (b ∷ seen) tools ≡ all_found look_path seen tools
unfolding all_found mem
all_found-seen look_path b seen [] h = refl
all_found-seen look_path b seen (t ∷ tools) h =
    ground (arith, all_found-seen look_path b seen tools, equal_iff b t.binary)

missing_tools-all_found :
    (look_path : Bytes → Bool) (seen : List Bytes) (tools : List Tool)
    → is_empty (missing_tools look_path seen tools) ≡ all_found look_path seen tools
unfolding missing_tools all_found
missing_tools-all_found look_path seen [] = refl
missing_tools-all_found look_path seen (t ∷ tools) = ground (
  arith,
  missing_tools-all_found look_path seen tools,
  missing_tools-all_found look_path (t.binary ∷ seen) tools,
  all_found-seen look_path t.binary seen tools,
)

all_found-append :
    (look_path : Bytes → Bool) (ts us : List Tool)
    → all_found look_path [] (ts ++ us) ≡ (all_found look_path [] ts && all_found look_path [] us)
unfolding all_found
all_found-append look_path [] us = refl
all_found-append look_path (t ∷ ts) us = ground (arith, all_found-append look_path ts us)

-- The check passes exactly where each binary of the list is found.
pub check_tools-all_found :
    (look_path : Bytes → Bool) (tools : List Tool)
    → (check_tools look_path tools ≡ none) ↔ (all_found look_path [] tools ≡ true)
unfolding check_tools
check_tools-all_found look_path tools = ground (arith, missing_tools-all_found look_path [] tools)

-- The check before "build all" passes exactly where both of the others pass.
pub check_all_iff :
    (look_path : Bytes → Bool)
    → (check_all look_path ≡ none) ↔ ((check_cloud look_path ≡ none) × (check_iso look_path ≡ none))
unfolding check_all check_cloud check_iso
check_all_iff look_path =
    let all = check_tools-all_found look_path (cloud_tools ++ iso_tools) in
    let cloud = check_tools-all_found look_path cloud_tools in
    let iso = check_tools-all_found look_path iso_tools in
    let both = all_found-append look_path cloud_tools iso_tools in
    (
      λ h. (cloud.1 (ground (arith, both, all.0 h)), iso.1 (ground (arith, both, all.0 h))),
      λ h. all.1 (both ∙ ground (arith, cloud.0 h.0, iso.0 h.1)),
    )
