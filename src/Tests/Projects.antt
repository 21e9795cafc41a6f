-- ===== src/Tests/Projects.antt =====
-- internal/config/config_test.go, internal/preflight/check_test.go, and the theorems about the
-- project's files, the tools and the generated configuration at concrete inputs.
use hacker_os_builder.Prelude.{
  if◌then◌else◌, Bool, true, false, Option, none, some, List, [], ◌∷◌, Bytes, codes, equal, mem,
  distinct, ◌≡◌, refl, ◌↔◌,
}
use hacker_os_builder.Text.Search.{trim_prefix}
use hacker_os_builder.Text.Space.{fields, fields_from}
use hacker_os_builder.Text.Order.{less, insert_by, sort_by, is_sorted, id_key}
use hacker_os_builder.Hk.Errors.{ok}
use hacker_os_builder.Hk.Value.{must_get, as_map}
use hacker_os_builder.Hk.Store.{HkConfig}
use hacker_os_builder.Hk.Config.{section}
use hacker_os_builder.Hk.Load.{load_file, load_scanned, scan_pieces, drop_cr}
use hacker_os_builder.Config.{
  wrong_account_type, Config, Loading, loaded, refused, default_project_config, load, load_parsed,
  load_fields, load_project_section, validate, get_required_string, required_value, project_of,
  project_type_of, installer_of, mac_of, optional_text, parse_project_type, parse_installer_type,
  is_truthy,
}
use hacker_os_builder.Hkgen.{DebOstreeConfigParams, generate_deb_ostree_config}
use hacker_os_builder.Hkgen.Settings.{HasSettings, generate_deb_ostree_config-HasSettings}
use hacker_os_builder.Liveparse.{
  Entry, listed, got, parse_package_lists, collect_packages, add_packages, read_package_list_file,
  names_in, kept_lines,
}
use hacker_os_builder.Liveparse.Packages.{listed_names, parse_package_lists-mem}
use hacker_os_builder.Preflight.{check_tools, iso_tools}
use hacker_os_builder.Preflight.Missing.{all_found, check_tools-all_found}
use hacker_os_builder.Download.{
  Network, release_asset_name, checksums_asset_name, release_asset_url, parse_checksums_file,
  find_hash, line_hash, equal_fold, compare_hash, verify_checksum, store_file, written,
  download_deb_ostree,
}
use hacker_os_builder.Download.Checked.{download_deb_ostree-written}
use hacker_os_builder.Tests.HkReferences.{shell, resolved}

-- Load, with all that it calls open to computation.
unfoldable pub opened : Option Bytes → Loading Config
unfolding resolved load load_parsed load_file load_scanned scan_pieces drop_cr load_fields
    load_project_section validate get_required_string required_value project_of project_type_of
    installer_of mac_of optional_text parse_project_type parse_installer_type is_truthy section
    must_get as_map
opened contents = load shell contents

abbrev pub config_text : Bytes
config_text =
    codes
      "[account]\n-> type => user\n-> name => Michal\n[auth]\n-> token => t0k\n[release]\n-> name => trixie\n"

abbrev pub config : Config
config = record {
  account_type = codes "user";
  account_name = codes "Michal";
  token = codes "t0k";
  release = codes "trixie";
  project = default_project_config;
}

pub config_text-loaded : load shell (some config_text) ≡ loaded config
unfolding opened
config_text-loaded = refl

wrong_type :
    load shell (
      some (
        codes
          "[account]\n-> type => robot\n-> name => m\n[auth]\n-> token => t\n[release]\n-> name => sid\n"))
    ≡ refused (wrong_account_type (codes "robot"))
unfolding opened
wrong_type = refl

abbrev params : DebOstreeConfigParams
params = record {
  sysroot_path = [];
  ostree_repo_path = [];
  os_name = codes "debian";
  overlay_work_dir = [];
  apt_lists_path = [];
  origin_refspec = codes "deb-ostree-oci:ghcr.io/m/i:latest";
}

generate_deb_ostree_config-HasSettings_example :
    (c : HkConfig) × (generate_deb_ostree_config params ≡ ok c) × HasSettings params c
generate_deb_ostree_config-HasSettings_example = generate_deb_ostree_config-HasSettings params

abbrev entries : List Entry
entries =
    record {
      name = codes "a.list.chroot";
      is_dir = false;
      contents = some (codes "# tools\nvim curl\n\n");
    }
    ∷ record { name = codes "b.list.chroot"; is_dir = false; contents = some (codes "curl\nbash") }
    ∷ record { name = codes "notes.txt"; is_dir = false; contents = none }
    ∷ []

packages-listed :
    parse_package_lists (codes "/p") (listed entries)
    ≡ got (codes "bash" ∷ codes "curl" ∷ codes "vim" ∷ [])
unfolding opened parse_package_lists collect_packages add_packages read_package_list_file names_in
    kept_lines fields fields_from less insert_by sort_by
packages-listed = refl

parse_package_lists-mem_example :
    (is_sorted id_key (codes "bash" ∷ codes "curl" ∷ codes "vim" ∷ []) ≡ true)
    × (distinct (codes "bash" ∷ codes "curl" ∷ codes "vim" ∷ []) ≡ true)
    × ((n : Bytes)
        → mem n (codes "bash" ∷ codes "curl" ∷ codes "vim" ∷ []) ≡ mem n (listed_names entries))
parse_package_lists-mem_example =
    parse_package_lists-mem (codes "/p") entries (codes "bash" ∷ codes "curl" ∷ codes "vim" ∷ [])
      packages-listed

abbrev has_xorriso : Bytes → Bool
has_xorriso b = equal b (codes "xorriso")

check_tools-all_found_example :
    (check_tools has_xorriso iso_tools ≡ none) ↔ (all_found has_xorriso [] iso_tools ≡ true)
check_tools-all_found_example = check_tools-all_found has_xorriso iso_tools

abbrev network : Network
network = record {
  fetch = λ url.
      if equal url (release_asset_url (codes "v1") checksums_asset_name)
      then some (codes "AB01 *deb-ostree\n")
      else some (codes "binary");
  sha256_hex = λ s. codes "ab01";
  can_make_dir = λ d. true;
  can_write = λ p. true;
  can_chmod = λ p. true;
}

download-stored :
    download_deb_ostree network (codes "v1") (codes "/b") (codes "/b/deb-ostree")
    ≡ written (codes "/b/deb-ostree") (codes "binary")
unfolding opened download_deb_ostree verify_checksum compare_hash store_file parse_checksums_file
    find_hash line_hash fields fields_from trim_prefix
download-stored = refl

checksums-entry :
    parse_checksums_file (codes "AB01 *deb-ostree\n") release_asset_name ≡ some (codes "AB01")
unfolding opened parse_checksums_file find_hash line_hash fields fields_from trim_prefix
checksums-entry = refl

checksums-fetched :
    network.fetch (release_asset_url (codes "v1") checksums_asset_name)
    ≡ some (codes "AB01 *deb-ostree\n")
unfolding equal
checksums-fetched = refl

download_deb_ostree-written_example :
    (codes "/b/deb-ostree" ≡ codes "/b/deb-ostree")
    × (network.fetch (release_asset_url (codes "v1") release_asset_name) ≡ some (codes "binary"))
    × (equal_fold (network.sha256_hex (codes "binary")) (codes "AB01") ≡ true)
download_deb_ostree-written_example =
    download_deb_ostree-written network (codes "v1") (codes "/b") (codes "/b/deb-ostree")
      (codes "/b/deb-ostree") (codes "binary") (codes "AB01 *deb-ostree\n") (codes "AB01")
      download-stored checksums-fetched checksums-entry
