-- ===== src/Download.antt =====
-- internal/download/debostree.go: the binary of deb-ostree and its checksum. What a GET of an
-- address answers, and the SHA-256 of a text in hexadecimal, are parameters.
pub mod Checked
pub mod Version
use hacker_os_builder.Prelude.{
  ℕ, Bool, true, false, not, Option, none, some, List, [], ◌∷◌, ◌++◌, if◌then◌else◌, Bytes, codes,
  equal,
}
use hacker_os_builder.Text.Search.{to_lower, trim_prefix}
use hacker_os_builder.Text.Space.{fields, trim_space}
use hacker_os_builder.Text.Pieces.{split}

abbrev pub release_asset_name : Bytes
release_asset_name = codes "deb-ostree"

abbrev pub checksums_asset_name : Bytes
checksums_asset_name = codes "checksums.txt"

abbrev pub release_asset_url : Bytes → Bytes → Bytes
release_asset_url version asset_name =
    codes "https://github.com/HackerOS-Linux-System/deb-ostree/releases/download/"
    ++ (version ++ b'/' ∷ asset_name)

-- The hash of a line with two fields, if the second names the file.
unfoldable pub line_hash : Bytes → List Bytes → Option Bytes
unfolding equal
line_hash wanted (hash ∷ name ∷ []) =
    if equal (trim_prefix name (b'*' ∷ [])) wanted then some hash else none
line_hash wanted _ = none

-- The loop over the lines; a blank line has no field.
unfoldable pub find_hash : Bytes → List Bytes → Option Bytes
find_hash wanted [] = none
find_hash wanted (line ∷ lines) =
    let rest = find_hash wanted lines in
    elim (line_hash wanted (fields (trim_space line))) [ none ↦ rest | some hash ↦ some hash ]

unfoldable pub parse_checksums_file : Bytes → Bytes → Option Bytes
unfolding find_hash
parse_checksums_file content wanted = find_hash wanted (split b'\n' content)

-- What the function asks of the world.
pub record Network : Type 0 where
  pub fetch : Bytes → Option Bytes
  pub sha256_hex : Bytes → Bytes
  pub can_make_dir : Bytes → Bool
  pub can_write : Bytes → Bool
  pub can_chmod : Bytes → Bool

pub data Verdict : Type 0 where
  no_checksums no_entry matching : Verdict
  mismatch : Bytes → Bytes → Verdict

-- `strings.EqualFold` of the hexadecimal text of a hash with another text.
abbrev pub equal_fold : Bytes → Bytes → Bool
equal_fold hex s = equal (to_lower hex) (to_lower s)

unfoldable pub compare_hash : Bytes → Option Bytes → Verdict
compare_hash actual none = no_entry
compare_hash actual (some expected) =
    if equal_fold actual expected then matching else mismatch expected actual

unfoldable pub verify_checksum : Network → Bytes → Bytes → Verdict
unfolding compare_hash
verify_checksum net version content =
    elim (net.fetch (release_asset_url version checksums_asset_name)) [
      | none ↦ no_checksums
      | some sums ↦
          compare_hash (net.sha256_hex content) (parse_checksums_file sums release_asset_name)
    ]

-- How DownloadDebOstree ends: the file that it wrote, or the error.
pub data Download : Type 0 where
  written : Bytes → Bytes → Download
  not_fetched not_made not_written not_executable : Download
  refused : Bytes → Bytes → Download

unfoldable pub store_file : Network → Bytes → Bytes → Bytes → Download
store_file net dir dest content =
    if not (net.can_make_dir dir)
    then not_made
    else if not (net.can_write dest)
    then not_written
    else if not (net.can_chmod dest)
    then not_executable
    else written dest content

abbrev pub stored : Verdict → Download → Download
stored (mismatch expected actual) d = refused expected actual
stored _ d = d

-- `dir` is filepath.Dir of `dest`.
unfoldable pub download_deb_ostree : Network → Bytes → Bytes → Bytes → Download
download_deb_ostree net version dir dest =
    elim (net.fetch (release_asset_url version release_asset_name)) [
      | none ↦ not_fetched
      | some content ↦
          stored (verify_checksum net version content) (store_file net dir dest content)
    ]
