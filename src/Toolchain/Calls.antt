-- ===== src/Toolchain/Calls.antt =====
-- The calls of internal/toolchain/toolchain.go.
use hacker_os_builder.Prelude.{
  Bool, true, false, Option, none, some, List, [], ◌∷◌, Bytes, codes, ◌≡◌, refl, ℕ, equal, ◌&&◌,
  ◌||◌,
}
use hacker_os_builder.Liveparse.{join_path}
use hacker_os_builder.System.{
  make_dirs, remove_all, exec, download, DirEntry, DirReply, no_dir, dir_error, dir_entries, Call,
  act, Io,
}
use hacker_os_builder.System.Always.{
  Always, pure-Always, throw-Always, ask-Always, bind-Always, perform-Always, within-Always,
  deferring-Always, each-Always, when-Always,
}
use hacker_os_builder.Toolchain.{
  Tool, build_tools, Manager, tool_available, look_further, missing_tools, write_copy, copied_mode,
  copy_entry, copy_entries, copy_listing, copy_binaries, copy_all, share_dir,
  install_debootstrap_data, found_debs, unpack, fetch_into, tmp_dir, download_and_extract,
  prepare_all,
}

-- `apt-get download`, `dpkg-deb --extract` and `cp -a`.
unfoldable pub is_tool_command : Bytes → List Bytes → Bool
is_tool_command name [] = false
is_tool_command name (arg ∷ args) =
    (equal name (codes "apt-get") && equal arg (codes "download"))
    || (equal name (codes "dpkg-deb") && equal arg (codes "--extract"))
    || (equal name (codes "cp") && equal arg (codes "-a"))

-- A call that makes no directory but those of `Q`, removes none but those of `R`, runs those
-- commands and fetches no binary.
abbrev pub Makes : (Bytes → Type 0) → (Bytes → Type 0) → Call → Type 0
Makes Q R (act (make_dirs path mode)) = Q path
Makes Q R (act (remove_all path)) = R path
Makes Q R (act (exec dir env stdin name args)) = is_tool_command name args ≡ true
Makes Q R (act (download version path)) = ⊥
Makes Q R _ = Unit

module _ (m : Manager) (Q R : Bytes → Type 0) where
  write_copy-Makes :
      (dst : Bytes) (mode : ℕ) (content : Option Bytes)
      → Always (Makes Q R) (write_copy dst mode content)
  write_copy-Makes dst mode none = throw-Always _ _
  write_copy-Makes dst mode (some text) = within-Always _ _ _ (perform-Always _ _ tt)

  copy_entry-Makes :
      (src dst : Bytes) (mode : Option ℕ) (rest : Io ℕ)
      → Always (Makes Q R) rest
      → Always (Makes Q R) (copy_entry src dst mode rest)
  copy_entry-Makes src dst none rest h = h
  copy_entry-Makes src dst (some mode) rest h =
      bind-Always _ _ _ (ask-Always _ _ _ tt (write_copy-Makes dst mode))
        λ u. bind-Always _ _ _ h λ n. pure-Always _ _

  copy_entries-Makes :
      (src_dir dst_dir : Bytes) (entries : List DirEntry)
      → Always (Makes Q R) (copy_entries src_dir dst_dir entries)
  unfolding copy_entries
  copy_entries-Makes src_dir dst_dir [] = pure-Always _ _
  copy_entries-Makes src_dir dst_dir (e ∷ entries) =
      copy_entry-Makes _ _ (copied_mode e) _ (copy_entries-Makes src_dir dst_dir entries)

  copy_listing-Makes :
      (src_dir dst_dir : Bytes) (reply : DirReply)
      → Always (Makes Q R) (copy_listing src_dir dst_dir reply)
  copy_listing-Makes src_dir dst_dir no_dir = pure-Always _ _
  copy_listing-Makes src_dir dst_dir dir_error = throw-Always _ _
  copy_listing-Makes src_dir dst_dir (dir_entries entries) =
      copy_entries-Makes src_dir dst_dir entries

  copy_all-Makes :
      (dst_dir : Bytes) (dirs : List Bytes) → Always (Makes Q R) (copy_all dst_dir dirs)
  unfolding copy_all copy_binaries
  copy_all-Makes dst_dir [] = pure-Always _ _
  copy_all-Makes dst_dir (src ∷ dirs) =
      bind-Always _ _ _ (within-Always _ _ _ (ask-Always _ _ _ tt (copy_listing-Makes src dst_dir)))
        λ n. bind-Always _ _ _ (copy_all-Makes dst_dir dirs) λ more. pure-Always _ _

  install_debootstrap_data-Makes :
      (extract_dir : Bytes)
      → Q (share_dir m)
      → Always (Makes Q R) (install_debootstrap_data m extract_dir)
  unfolding install_debootstrap_data is_tool_command equal
  install_debootstrap_data-Makes extract_dir q = bind-Always _ _ _ (perform-Always _ _ q) λ u.
      bind-Always _ _ _ (within-Always _ _ _ (perform-Always _ _ tt)) λ u.
        bind-Always _ _ _ (within-Always _ _ _ (perform-Always _ _ refl)) λ u.
          bind-Always _ _ _ (within-Always _ _ _ (perform-Always _ _ tt))
            λ u. within-Always _ _ _ (perform-Always _ _ tt)

  found_debs-Makes : (debs : Option (List Bytes)) → Always (Makes Q R) (found_debs debs)
  found_debs-Makes none = throw-Always _ _
  found_debs-Makes (some []) = throw-Always _ _
  found_debs-Makes (some (deb ∷ debs)) = pure-Always _ _

  unpack-Makes :
      (t : Tool) (tmp : Bytes) (debs : List Bytes)
      → Q (share_dir m)
      → Q (join_path tmp (codes "extracted"))
      → Always (Makes Q R) (unpack m t tmp debs)
  unfolding unpack is_tool_command equal
  unpack-Makes t tmp debs q r = bind-Always _ _ _ (perform-Always _ _ r) λ u.
      bind-Always _ _ _ (each-Always _ _ debs λ deb. within-Always _ _ _ (perform-Always _ _ refl))
        λ u. bind-Always _ _ _ (copy_all-Makes m.bin_dir _) λ copied.
          bind-Always _ _ _
            (when-Always _ _ _ (within-Always _ _ _ (install_debootstrap_data-Makes _ q)))
            λ u.
              bind-Always _ _ _ (when-Always _ _ _ (throw-Always _ _))
                λ u. within-Always _ _ _ (perform-Always _ _ tt)

  -- The part of a tool that is fetched behind its temporary directory.
  pub fetch-Makes :
      (t : Tool) (tmp : Bytes)
      → Q (share_dir m)
      → Q (join_path tmp (codes "extracted"))
      → Always (Makes Q R) (fetch_into m t tmp)
  unfolding fetch_into is_tool_command equal
  fetch-Makes t tmp q r = bind-Always _ _ _ (within-Always _ _ _ (perform-Always _ _ refl)) λ u.
      bind-Always _ _ _ (ask-Always _ _ _ tt found_debs-Makes) λ debs. unpack-Makes t tmp debs q r

  tool_available-Makes : (binary : Bytes) → Always (Makes Q R) (tool_available m binary)
  unfolding tool_available
  tool_available-Makes binary = ask-Always _ _ _ tt further
    where
      further : (there : Bool) → Always (Makes Q R) (look_further binary there)
      further true = pure-Always _ _
      further false = ask-Always _ _ _ tt λ named. pure-Always _ _

  pub missing_tools-Makes : (tools : List Tool) → Always (Makes Q R) (missing_tools m tools)
  unfolding missing_tools
  missing_tools-Makes [] = pure-Always _ _
  missing_tools-Makes (t ∷ tools) =
      bind-Always _ _ _ (tool_available-Makes t.binary)
        λ there. bind-Always _ _ _ (missing_tools-Makes tools) λ missing. pure-Always _ _

-- PrepareAll runs nothing but those commands.
pub prepare_all-Makes :
    (m : Manager) → Always (Makes (λ path. Unit {0}) (λ path. Unit {0})) (prepare_all m)
unfolding prepare_all download_and_extract
prepare_all-Makes m = bind-Always _ _ _ (within-Always _ _ _ (perform-Always _ _ tt)) λ u.
    bind-Always _ _ _ (ask-Always _ _ _ tt λ path. pure-Always _ _) λ path.
      bind-Always _ _ _ (missing_tools-Makes m _ _ build_tools) λ missing.
        bind-Always _ _ _
          (each-Always _ _ missing λ t. within-Always _ _ _ (
            bind-Always _ _ _ (within-Always _ _ _ (perform-Always _ _ tt))
              λ u. deferring-Always _ _ _ tt (fetch-Makes m _ _ t (tmp_dir m t.binary) tt tt)))
          λ u. pure-Always _ _
