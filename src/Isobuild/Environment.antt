-- ===== src/Isobuild/Environment.antt =====
-- The environment of the commands that put the installer into a rootfs.
use hacker_os_builder.Prelude.{
  Option, none, some, List, [], ◌∷◌, ◌++◌, if◌then◌else◌, Bytes, codes, drop, length, equal, All,
  subst, sym, ◌≡◌, refl, ℕ,
}
use hacker_os_builder.Text.Search.{has_prefix}
use hacker_os_builder.Liveparse.{join_path}
use hacker_os_builder.System.{exec, Call, Answer, act, get_env, ◌>>=◌}
use hacker_os_builder.System.Always.{
  Always, pure-Always, ask-Always, bind-Always, perform-Always, within-Always, each-Always,
  Always-Ends,
}
use hacker_os_builder.System.Ends.{Ends, ask-Ends, weaken-Ends}
use hacker_os_builder.Sandbox.{noninteractive_env, unshare, exec_internal, exec_env}
use hacker_os_builder.Toolchain.{env}
use hacker_os_builder.Isobuild.Installer.{
  Arrange, write_in, write_calamares_config, write_installer_autostart, install_in,
  inject_installer,
}

-- The value of a variable in the environment of a command: the last of its settings.
pub value_of : Bytes → List Bytes → Option Bytes
value_of name [] = none
value_of name (setting ∷ settings) = elim (value_of name settings) [
  | some value ↦ some value
  | none ↦
      if has_prefix setting (name ++ b'=' ∷ [])
      then some (drop (length (name ++ b'=' ∷ [])) setting)
      else none
]

-- The last answer of os.Getenv for PATH, and the PATH of each command.
abbrev pub on_path :
    Bytes × List (Option Bytes) → (c : Call) → Answer c → Bytes × List (Option Bytes)
on_path (host, paths) (get_env name) value =
    (if equal name (codes "PATH") then value else host, paths)
on_path (host, paths) (act (exec dir env stdin name args)) ok =
    (host, value_of (codes "PATH") env ∷ paths)
on_path s _ answer = s

-- Each is the directory, a colon and the PATH of the host.
abbrev pub AreLeaked : Bytes → Bytes × List (Option Bytes) → Type 0
AreLeaked bin_dir (host, paths) = All (λ path. path ≡ some (bin_dir ++ b':' ∷ host)) paths

-- A command in which PATH is the directory, a colon and the given path.
abbrev LeaksPath : Bytes → Bytes → Call → Type 0
LeaksPath bin_dir path (act (exec dir env stdin name args)) =
    value_of (codes "PATH") env ≡ some (bin_dir ++ b':' ∷ path)
LeaksPath bin_dir path (get_env name) = ⊥
LeaksPath bin_dir path _ = Unit

abbrev IsLeaking : Bytes → Bytes → Bytes × List (Option Bytes) → Type 0
IsLeaking bin_dir path s = (s.0 ≡ path) × All (λ p. p ≡ some (bin_dir ++ b':' ∷ path)) s.1

LeaksPath-keeps :
    (bin_dir path : Bytes) (s : Bytes × List (Option Bytes)) (c : Call) (a : Answer c)
    → LeaksPath bin_dir path c
    → IsLeaking bin_dir path s
    → IsLeaking bin_dir path (on_path s c a)
LeaksPath-keeps bin_dir path s (act (exec dir env stdin name args)) a e h = (h.0, (e, h.1))
LeaksPath-keeps bin_dir path s (get_env name) a e h = absurd e
LeaksPath-keeps bin_dir path s _ a e h = h

leaking-AreLeaked :
    (bin_dir path : Bytes) (s : Bytes × List (Option Bytes))
    → IsLeaking bin_dir path s
    → AreLeaked bin_dir s
leaking-AreLeaked bin_dir path s (e, h) =
    subst (λ host. All (λ p. p ≡ some (bin_dir ++ b':' ∷ host)) s.1) (sym e) h

value_of-unshare :
    (bin_dir path : Bytes)
    → value_of
        (codes "PATH")
        (noninteractive_env ++ (codes "PATH=" ++ (bin_dir ++ b':' ∷ path)) ∷ [])
      ≡ some (bin_dir ++ b':' ∷ path)
unfolding value_of has_prefix
value_of-unshare bin_dir path = refl

module _ (bin_dir path : Bytes) where
  abbrev host_env : List Bytes
  host_env = (codes "PATH=" ++ (bin_dir ++ b':' ∷ path)) ∷ []

  exec_env-Leaks :
      (root command : Bytes) (args : List Bytes)
      → Always (LeaksPath bin_dir path) (exec_env root host_env command args)
  unfolding exec_env exec_internal unshare
  exec_env-Leaks root command args =
      bind-Always _ _ _ (each-Always _ _ _ λ sub. within-Always _ _ _ (perform-Always _ _ tt))
        λ u. within-Always _ _ _ (perform-Always _ _ (value_of-unshare bin_dir path))

  write_in-Leaks :
      (dir name content : Bytes) (mode : ℕ)
      → Always (LeaksPath bin_dir path) (write_in dir name content mode)
  write_in-Leaks dir name content mode =
      bind-Always _ _ _ (perform-Always _ _ tt) λ u. perform-Always _ _ tt

  install_in-Leaks :
      (arrange : Arrange) (root : Bytes)
      → Always (LeaksPath bin_dir path) (install_in arrange root host_env)
  unfolding install_in write_calamares_config write_installer_autostart
  install_in-Leaks arrange root =
      bind-Always _ _ _ (within-Always _ _ _ (exec_env-Leaks _ _ _)) λ u.
        bind-Always _ _ _ (within-Always _ _ _ (exec_env-Leaks _ _ _)) λ u.
          bind-Always _ _ _
            (within-Always _ _ _ (
              bind-Always _ _ _ (perform-Always _ _ tt) λ u.
                bind-Always _ _ _ (perform-Always _ _ tt)
                  λ u. each-Always _ _ _ λ file. within-Always _ _ _ (perform-Always _ _ tt)))
            λ u. within-Always _ _ _ (
              bind-Always _ _ _ (write_in-Leaks _ _ _ _) λ u.
                bind-Always _ _ _ (write_in-Leaks _ _ _ _) λ u.
                  bind-Always _ _ _ (write_in-Leaks _ _ _ _) λ u.
                    bind-Always _ _ _ (write_in-Leaks _ _ _ _) λ u.
                      bind-Always _ _ _ (perform-Always _ _ tt) λ u.
                        bind-Always _ _ _ (ask-Always _ _ _ tt λ ok. pure-Always _ _)
                          λ u. within-Always _ _ _ (perform-Always _ _ tt))

-- Whatever os.Getenv answers for PATH: in every command that InjectInstaller runs inside the
-- rootfs, whether it succeeds or fails, PATH is not that of the sandbox but toolchain-bin of the
-- working directory, a colon and that answer.
pub inject_installer-Leaks :
    (arrange : Arrange) (rootfs_dir work_dir host : Bytes)
    → Ends on_path
        (inject_installer arrange rootfs_dir work_dir)
        (λ u. AreLeaked (join_path work_dir (codes "toolchain-bin")))
        (AreLeaked (join_path work_dir (codes "toolchain-bin")))
        (host, [])
unfolding inject_installer env ◌>>=◌ equal
inject_installer-Leaks arrange rootfs_dir work_dir host =
    let bin_dir = join_path work_dir (codes "toolchain-bin") in
    ask-Ends on_path (get_env (codes "PATH")) _ _ _ (host, [])
      λ path.
        weaken-Ends on_path _ (λ u. IsLeaking bin_dir path) _ (IsLeaking bin_dir path) _ _
          (λ u s h. leaking-AreLeaked bin_dir path s h) (λ s h. leaking-AreLeaked bin_dir path s h)
          (Always-Ends (LeaksPath bin_dir path) on_path _ (IsLeaking bin_dir path) _
            (LeaksPath-keeps bin_dir path) (install_in-Leaks bin_dir path arrange rootfs_dir)
            (refl, tt))
