-- ===== src/Tests/Images.antt =====
-- The theorems about images, the ISO and the lock at concrete inputs.
use hacker_os_builder.Prelude.{
  arith, false, true, false, none, some, [], ◌∷◌, codes, ◌≡◌, refl, inl, equal,
}
use hacker_os_builder.Text.Search.{has_prefix, trim_prefix}
use hacker_os_builder.Text.Pieces.{split, join}
use hacker_os_builder.System.{
  type_reg, TarEntry, act, run, done, ◌>>=◌, within, deferring, each, make_dirs, remove_all,
  create_file, write_text, close_file,
}
use hacker_os_builder.System.Components.{
  base_name, components, join_to, go_along, dir_parts, render,
}
use hacker_os_builder.System.Always.{Always}
use hacker_os_builder.System.Ends.{Ends}
use hacker_os_builder.Ociimage.Pull.{
  PullParams, extract_entry, extract_entries, extract_layer, pull_and_unpack,
}
use hacker_os_builder.Ociimage.Confined.{StaysUnder, IsLocal, extract_layer-StaysUnder}
use hacker_os_builder.Ociimage.Modes.{HasPlainMode, extract_layer-HasPlainMode}
use hacker_os_builder.Isobuild
use hacker_os_builder.Isobuild.{BuildParams, last_match}
use hacker_os_builder.Isobuild.Installer.{inject_installer}
use hacker_os_builder.Isobuild.Commands
use hacker_os_builder.Isobuild.Environment.{on_path, AreLeaked, inject_installer-Leaks}
use hacker_os_builder.Tests.Willing.{file_entry, archive, willing, is_done}
use hacker_os_builder.Buildlock.Released.{after_call, free, acquire_release, acquire_release-Ends}

file_entry-IsLocal : IsLocal file_entry
unfolding split equal trim_prefix has_prefix base_name
file_entry-IsLocal = record {
  name_plain = (refl, (refl, tt));
  hidden_plain = refl;
  link_plain = inl (refl, tt);
}

extract_layer-StaysUnder_example :
    Always (StaysUnder (codes "/w/rootfs")) (extract_layer (codes "/w/rootfs") (some archive))
extract_layer-StaysUnder_example =
    extract_layer-StaysUnder (codes "/w/rootfs") archive (file_entry-IsLocal, tt)

abbrev pull_params : PullParams
pull_params = record {
  repository = codes "ghcr.io/michal/image";
  tag = codes "trixie";
  token = codes "t";
  dest_dir = codes "/w/rootfs";
  insecure = false;
}

-- A file that is setuid in its header.
abbrev setuid_entry : TarEntry
setuid_entry = record {
  name = codes "bin/su";
  entry_type = type_reg;
  mode = 0o104755;
  linkname = [];
}

extract_layer-HasPlainMode_example : Always HasPlainMode (
    extract_layer
      (codes "/w/rootfs")
      (some (record { entries = (setuid_entry, codes "x") ∷ []; complete = true })))
extract_layer-HasPlainMode_example =
    extract_layer-HasPlainMode (codes "/w/rootfs")
      (record { entries = (setuid_entry, codes "x") ∷ []; complete = true }) (omega arith, tt)

abbrev iso_params : BuildParams
iso_params = record {
  rootfs_dir = codes "/w/rootfs";
  output_iso = codes "/o.iso";
  work_dir = codes "/w";
  volume_name = codes "HACKEROS";
  skip_installer = false;
}

inject_installer-Leaks_example :
    Ends on_path
      (inject_installer (λ files. files) (codes "/w/rootfs") (codes "/w"))
      (λ u. AreLeaked (codes "/w/toolchain-bin"))
      (AreLeaked (codes "/w/toolchain-bin"))
      ([], [])
inject_installer-Leaks_example =
    inject_installer-Leaks (λ files. files) (codes "/w/rootfs") (codes "/w") []

acquire_release-Ends_example :
    Ends after_call
      (acquire_release (codes "/w") 17)
      (λ r t. (r.1 ≡ none) × (t ≡ free))
      (λ t. t ≡ free)
      free
acquire_release-Ends_example = acquire_release-Ends (codes "/w") 17

pull_runs : is_done (run willing (pull_and_unpack pull_params)).1 ≡ true
unfolding run pull_and_unpack ◌>>=◌ within deferring each extract_layer extract_entries
    extract_entry base_name equal has_prefix split join_to components go_along render join
pull_runs = refl

-- The names of an archive can lead out of the directory: the file is made in /etc.
abbrev escaping : TarEntry
escaping = record { name = codes "../../etc/x"; entry_type = type_reg; mode = 0o644; linkname = [] }

escaping_runs :
    (run willing (extract_entry (codes "/w/rootfs") escaping (codes "text"))).0
    ≡ act (make_dirs (codes "/etc") 0o755)
      ∷ act (create_file (codes "/etc/x") 0o644)
      ∷ act (write_text (codes "/etc/x") (codes "text"))
      ∷ act (close_file (codes "/etc/x"))
      ∷ []
unfolding run ◌>>=◌ within deferring each extract_entry base_name equal has_prefix split join_to
    components go_along render join
escaping_runs = refl

-- The name that a whiteout hides can be empty: the whole directory is removed.
whiteout_runs :
    (run willing (extract_entry (codes "/w/rootfs") (record escaping { name = codes ".wh." }) [])).0
    ≡ act (remove_all (codes "/w/rootfs")) ∷ []
unfolding run ◌>>=◌ within deferring each extract_entry dir_parts trim_prefix base_name equal
    has_prefix split join_to components go_along render join
whiteout_runs = refl

-- Of two kernels the last by name is taken, which is the older one here.
kernel_runs :
    (run willing (last_match (codes "vmlinuz-6.12" ∷ codes "vmlinuz-6.9" ∷ []))).1
    ≡ done (codes "vmlinuz-6.9")
unfolding run
kernel_runs = refl
