-- ===== src/Rootfs/Progress.antt =====
-- The failures of a build of a rootfs.
use hacker_os_builder.Prelude.{
  Bool, true, false, ◌&&◌, not, Option, none, some, List, [], ◌∷◌, if◌then◌else◌, Bytes, ℕ, ◌≡◌,
  refl, ◌⊎◌, inl, inr, arith, Bool-cases, codes, is_some,
}
use hacker_os_builder.Liveparse.{HookScript, join_path}
use hacker_os_builder.System.{
  stat, look_path, Kind, dir_kind, file_kind, link_kind, other_kind, socket_kind, Visit, act, walk,
  read_link, get_env, pure, each,
}
use hacker_os_builder.System.Ends.{Ends, pure-Ends, throw-Ends, ask-Ends, then-Ends, weaken-Ends}
use hacker_os_builder.System.Refusals.{
  FailsOnly, failed-Ends, all_well, none_failed, and_false, pure-FailsOnly, bind-FailsOnly,
  perform-FailsOnly, ask-FailsOnly, within-FailsOnly, when-FailsOnly, deferring-FailsOnly,
  ignoring-FailsOnly, each-FailsOnly, failed-FailsOnly, ask_or_throw-FailsOnly,
}
use hacker_os_builder.Sandbox.{unshare, exec_internal, exec_in, exec_with_stdin}
use hacker_os_builder.Toolchain.{
  Tool, build_tools, Manager, tool_available, look_further, missing_tools, fetch_tool, prepare_all,
}
use hacker_os_builder.Rootfs.Files.{
  copy_file, copy_link, copy_kind, copy_found, copy_visit, copy_tree,
}
use hacker_os_builder.Rootfs.{
  Builder, prepare_dir, prepare_tools, run_debootstrap, seed_debconf, install_sudo_stub,
  apply_extra_sources, install_mac_packages, install_packages, run_hook, run_hooks, wanted_version,
  inject_deb_ostree, install_deb_ostree_deps, generate_deb_ostree_config, finish_build, build,
}

-- All is well only where no tool is missing.
abbrev NoneMissing : List Tool → Bool → Type 0
NoneMissing missing t = (t ≡ false) ⊎ (missing ≡ [])

module _ (m : Manager) where
  look_further-Ends :
      (binary : Bytes) (there s : Bool)
      → Ends all_well
          (look_further binary there)
          (λ named t. (t ≡ false) ⊎ (named ≡ true))
          (λ t. t ≡ false)
          s
  look_further-Ends binary true s = pure-Ends all_well true _ _ s (inr refl)
  look_further-Ends binary false s = ask-Ends all_well (act (look_path binary)) pure _ _ s named
    where
      named :
          (ok : Bool)
          → Ends all_well
              (pure ok)
              (λ named t. (t ≡ false) ⊎ (named ≡ true))
              (λ t. t ≡ false)
              (s && ok)
      named true = pure-Ends all_well true _ _ _ (inr refl)
      named false = pure-Ends all_well false _ _ _ (inl (and_false s))

  sort_missing :
      (x : Tool) (missing : List Tool) (there t : Bool)
      → (there ≡ true) ⊎ (t ≡ false)
      → NoneMissing missing t
      → NoneMissing (if there then missing else x ∷ missing) t
  sort_missing x missing true t h k = k
  sort_missing x missing false t (inl e) k = cc
  sort_missing x missing false t (inr e) k = inl e

  missing_tools-Ends :
      (tools : List Tool) (s : Bool)
      → Ends all_well (missing_tools m tools) NoneMissing (λ t. t ≡ false) s
  unfolding missing_tools tool_available
  missing_tools-Ends [] s = pure-Ends all_well [] _ _ s (inr refl)
  missing_tools-Ends (x ∷ tools) s =
      then-Ends all_well _ _ _ _ _ s
        (ask-Ends all_well (act (stat (join_path m.bin_dir x.binary))) _ _ _ s
          λ there. look_further-Ends x.binary there (s && true))
        λ there t known. elim known [
          | inl e ↦
              weaken-Ends all_well _ (λ v t. t ≡ false) _ _ _ t (λ v u k. inl k) (λ u k. k)
                (failed-Ends _ t e)
          | inr e ↦
              then-Ends all_well (missing_tools m tools) _ _ _ _ t (missing_tools-Ends tools t)
                λ missing u k. pure-Ends all_well _ _ _ u (sort_missing x missing there u (inl e) k)
        ]

  fetched :
      (missing : List Tool) (t : Bool)
      → NoneMissing missing t
      → Ends all_well (each (fetch_tool m) missing) (λ u t. Unit {0}) (λ t. t ≡ false) t
  unfolding each
  fetched missing t (inl e) = failed-FailsOnly _ t e
  fetched missing t (inr e) = rw e (pure-Ends all_well tt _ _ t tt)

  prepare_all-FailsOnly : FailsOnly (prepare_all m)
  unfolding prepare_all
  prepare_all-FailsOnly =
      bind-FailsOnly _ _ (within-FailsOnly _ _ (perform-FailsOnly _ and_false)) λ u.
        bind-FailsOnly _ _ (ask-FailsOnly (get_env (codes "PATH")) _ λ path. pure-FailsOnly path)
          λ path. record {
            fails = λ s.
                then-Ends all_well _ _ _ _ _ s (missing_tools-Ends build_tools s) λ missing t k.
                  then-Ends all_well _ _ _ _ _ t (fetched missing t k)
                    λ u t k. pure-Ends all_well _ _ _ t tt;
          }

exec_internal-FailsOnly :
    (root : Bytes) (stdin : Option Bytes) (command : Bytes) (args : List Bytes)
    → FailsOnly (exec_internal root [] stdin command args)
unfolding exec_internal unshare
exec_internal-FailsOnly root stdin command args =
    bind-FailsOnly _ _
      (each-FailsOnly _ _ λ sub. within-FailsOnly _ _ (perform-FailsOnly _ and_false))
      λ u. within-FailsOnly _ _ (perform-FailsOnly _ and_false)

exec_in-FailsOnly :
    (root command : Bytes) (args : List Bytes) → FailsOnly (exec_in root command args)
unfolding exec_in
exec_in-FailsOnly root command args = exec_internal-FailsOnly root none command args

copy_file-FailsOnly : (src dst : Bytes) (mode : ℕ) → FailsOnly (copy_file src dst mode)
unfolding copy_file
copy_file-FailsOnly src dst mode = bind-FailsOnly _ _ (perform-FailsOnly _ and_false) λ u.
    bind-FailsOnly _ _ (perform-FailsOnly _ and_false) λ u. deferring-FailsOnly _ _ (
      bind-FailsOnly _ _ (perform-FailsOnly _ and_false) λ u.
        deferring-FailsOnly _ _
          (bind-FailsOnly _ _ (perform-FailsOnly _ and_false) λ u. perform-FailsOnly _ and_false))

copy_link-Ends :
    (dest : Bytes) (s : Bool) (target : Option Bytes)
    → Ends all_well (copy_link dest target) (λ u t. Unit {0}) (λ t. t ≡ false) (s && is_some target)
copy_link-Ends dest s none = throw-Ends all_well [] _ _ _ (and_false s)
copy_link-Ends dest s (some target) = (perform-FailsOnly _ and_false).fails (s && true)

copy_kind-FailsOnly :
    (kind : Kind) (path dest : Bytes) (mode : ℕ) → FailsOnly (copy_kind kind path dest mode)
copy_kind-FailsOnly dir_kind path dest mode = perform-FailsOnly _ and_false
copy_kind-FailsOnly link_kind path dest mode =
    ask_or_throw-FailsOnly (read_link path) _ (copy_link-Ends dest)
copy_kind-FailsOnly file_kind path dest mode = copy_file-FailsOnly path dest mode
copy_kind-FailsOnly other_kind path dest mode = copy_file-FailsOnly path dest mode
copy_kind-FailsOnly socket_kind path dest mode = copy_file-FailsOnly path dest mode

copy_found-FailsOnly :
    (from to : Bytes) (kind : Kind) (mode : ℕ) (rel : Bytes) (bad : Bool)
    → not bad ≡ true
    → FailsOnly (copy_found from to kind mode rel bad)
copy_found-FailsOnly from to kind mode rel true e = cc
copy_found-FailsOnly from to kind mode [] false e = pure-FailsOnly tt
copy_found-FailsOnly from to kind mode (c ∷ rel) false e = copy_kind-FailsOnly kind _ _ mode

copy_visits-FailsOnly :
    (from to : Bytes) (visits : List Visit)
    → none_failed visits ≡ true
    → FailsOnly (each (copy_visit from to) visits)
unfolding each
copy_visits-FailsOnly from to [] e = pure-FailsOnly tt
copy_visits-FailsOnly from to (v ∷ visits) e =
    bind-FailsOnly _ _ (copy_found-FailsOnly from to v.kind v.mode v.rel v.failed (ground arith))
      λ u. copy_visits-FailsOnly from to visits (ground arith)

copy_visits-Ends :
    (from to : Bytes) (s : Bool) (visits : List Visit)
    → Ends all_well
        (each (copy_visit from to) visits)
        (λ u t. Unit {0})
        (λ t. t ≡ false)
        (s && none_failed visits)
copy_visits-Ends from to s visits = elim (Bool-cases (none_failed visits)) [
  | inl well ↦ (copy_visits-FailsOnly from to visits well).fails _
  | inr bad ↦ failed-FailsOnly _ _ (rw bad (and_false s))
]

copy_tree-FailsOnly : (from to : Bytes) → FailsOnly (copy_tree from to)
unfolding copy_tree
copy_tree-FailsOnly from to = ask_or_throw-FailsOnly (walk from) _ (copy_visits-Ends from to)

module _ (b : Builder) where
  run_hook-FailsOnly : (h : HookScript) → FailsOnly (run_hook b h)
  unfolding run_hook
  run_hook-FailsOnly h =
      bind-FailsOnly _ _ (within-FailsOnly _ _ (copy_file-FailsOnly _ _ _))
        λ u. deferring-FailsOnly _ _ (within-FailsOnly _ _ (exec_in-FailsOnly _ _ _))

  apply_extra_sources-FailsOnly : FailsOnly (apply_extra_sources b)
  unfolding apply_extra_sources
  apply_extra_sources-FailsOnly = bind-FailsOnly _ _ (perform-FailsOnly _ and_false) λ u.
      bind-FailsOnly _ _ (within-FailsOnly _ _ (perform-FailsOnly _ and_false)) λ u.
        deferring-FailsOnly _ _ (
          bind-FailsOnly _ _ (each-FailsOnly _ _ λ line. perform-FailsOnly _ and_false)
            λ u. each-FailsOnly _ _ λ key. within-FailsOnly _ _ (copy_file-FailsOnly _ _ _))

  wanted_version-FailsOnly : (version : Bytes) → FailsOnly (wanted_version version)
  wanted_version-FailsOnly [] = ask-FailsOnly _ _ λ page. pure-FailsOnly _
  wanted_version-FailsOnly (c ∷ version) = pure-FailsOnly _

  finish_build-FailsOnly : FailsOnly (finish_build b)
  unfolding finish_build run_hooks inject_deb_ostree install_deb_ostree_deps
      generate_deb_ostree_config
  finish_build-FailsOnly =
      bind-FailsOnly _ _ (when-FailsOnly _ _ (within-FailsOnly _ _ (copy_tree-FailsOnly _ _))) λ u.
        bind-FailsOnly _ _
          (within-FailsOnly _ _ (deferring-FailsOnly _ _ (each-FailsOnly _ _ run_hook-FailsOnly)))
          λ u.
            bind-FailsOnly _ _
              (within-FailsOnly _ _ (
                bind-FailsOnly _ _ (ask-FailsOnly _ _ wanted_version-FailsOnly)
                  λ version. perform-FailsOnly _ and_false))
              λ u.
                bind-FailsOnly _ _
                  (within-FailsOnly _ _ (
                    bind-FailsOnly _ _ (within-FailsOnly _ _ (exec_in-FailsOnly _ _ _)) λ u.
                      bind-FailsOnly _ _ (within-FailsOnly _ _ (exec_in-FailsOnly _ _ _))
                        λ u. ignoring-FailsOnly _ (exec_in-FailsOnly _ _ _)))
                  λ u. within-FailsOnly _ _ (
                    bind-FailsOnly _ _ (within-FailsOnly _ _ (perform-FailsOnly _ and_false))
                      λ u. within-FailsOnly _ _ (perform-FailsOnly _ and_false))

  prepare_dir-FailsOnly : FailsOnly (prepare_dir b)
  unfolding prepare_dir
  prepare_dir-FailsOnly =
      bind-FailsOnly _ _ (within-FailsOnly _ _ (perform-FailsOnly _ and_false))
        λ u. within-FailsOnly _ _ (perform-FailsOnly _ and_false)

  -- A build fails only where a call of it has failed: where every call succeeds, it reaches its end.
  -- For os.Stat the answer that nothing is there is no failure, so the tools of the build may be
  -- found in the PATH only; a tool that exec.LookPath does not find is a failure here.
  pub build-FailsOnly : FailsOnly (build b)
  unfolding build prepare_tools run_debootstrap seed_debconf install_sudo_stub install_mac_packages
      install_packages exec_with_stdin
  build-FailsOnly = bind-FailsOnly _ _ prepare_dir-FailsOnly λ u.
      bind-FailsOnly _ _
        (bind-FailsOnly _ _ (within-FailsOnly _ _ (prepare_all-FailsOnly _))
          λ m. within-FailsOnly _ _ (perform-FailsOnly _ and_false))
        λ u.
          bind-FailsOnly _ _
            (within-FailsOnly _ _ (within-FailsOnly _ _ (perform-FailsOnly _ and_false)))
            λ u. bind-FailsOnly _ _ (within-FailsOnly _ _ (exec_internal-FailsOnly _ _ _ _)) λ u.
              bind-FailsOnly _ _
                (within-FailsOnly _ _ (
                  bind-FailsOnly _ _ (perform-FailsOnly _ and_false)
                    λ u. within-FailsOnly _ _ (perform-FailsOnly _ and_false)))
                λ u.
                  bind-FailsOnly _ _
                    (when-FailsOnly _ _ (within-FailsOnly _ _ apply_extra_sources-FailsOnly))
                    λ u.
                      bind-FailsOnly _ _
                        (within-FailsOnly _ _ (within-FailsOnly _ _ (exec_in-FailsOnly _ _ _)))
                        λ u.
                          bind-FailsOnly _ _
                            (within-FailsOnly _ _ (
                              bind-FailsOnly _ _ (within-FailsOnly _ _ (exec_in-FailsOnly _ _ _))
                                λ u.
                                  when-FailsOnly _ _
                                    (within-FailsOnly _ _ (exec_in-FailsOnly _ _ _))))
                            λ u. finish_build-FailsOnly
