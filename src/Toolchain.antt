-- ===== src/Toolchain.antt =====
-- internal/toolchain/toolchain.go: the tools of a build, found on the host or unpacked for it.
pub mod Calls
pub mod Ready
pub mod Leftovers
use hacker_os_builder.Prelude.{
  ℕ, suc, ◌+◌, ◌/◌, ◌%◌, Bool, true, false, not, ◌&&◌, ◌||◌, Option, none, some, List, [], ◌∷◌,
  ◌++◌, if◌then◌else◌, ◌==◌, Bytes, codes, equal, is_empty,
}
use hacker_os_builder.Liveparse.{join_path}
use hacker_os_builder.System.{
  make_dirs, remove_all, write_file, rename, stat, look_path, exec, DirEntry, no_dir, dir_error,
  dir_entries, DirReply, act, read_dir, read_file, glob, get_env, Io, pure, throw, ask, ◌>>=◌,
  perform, within, deferring, each, when,
}

pub record Tool : Type 0 where
  pub binary : Bytes
  pub apt_packages : List Bytes

abbrev pub build_tools : List Tool
build_tools =
    record { binary = codes "debootstrap"; apt_packages = codes "debootstrap" ∷ [] }
    ∷ record { binary = codes "mksquashfs"; apt_packages = codes "squashfs-tools" ∷ [] }
    ∷ record {
      binary = codes "grub-mkrescue";
      apt_packages = codes "grub-common" ∷ codes "grub-pc-bin" ∷ codes "grub-efi-amd64-bin" ∷ [];
    }
    ∷ record { binary = codes "xorriso"; apt_packages = codes "xorriso" ∷ [] }
    ∷ []

pub record Manager : Type 0 where
  pub work_dir : Bytes
  pub bin_dir : Bytes
  pub prepared_path : Bytes

abbrev pub new : Bytes → Manager
new work_dir = record {
  work_dir = work_dir;
  bin_dir = join_path work_dir (codes "toolchain-bin");
  prepared_path = [];
}

-- `binDir + ":" + PATH`
abbrev pub with_path : Manager → Bytes → Manager
with_path m path = record m { prepared_path = m.bin_dir ++ b':' ∷ path }

abbrev pub look_further : Bytes → Bool → Io Bool
look_further binary true = pure true
look_further binary false = ask (act (look_path binary)) pure

-- First toolchain-bin, then the PATH of the process.
unfoldable pub tool_available : Manager → Bytes → Io Bool
tool_available m binary = ask (act (stat (join_path m.bin_dir binary))) (look_further binary)

unfoldable pub missing_tools : Manager → List Tool → Io (List Tool)
missing_tools m [] = pure []
missing_tools m (t ∷ tools) = do
  there ← tool_available m t.binary
  missing ← missing_tools m tools
  pure (if there then missing else t ∷ missing)

-- `mode & 0o111 != 0`
abbrev executable : ℕ → Bool
executable mode = mode % 2 == 1 || mode / 8 % 2 == 1 || mode / 64 % 2 == 1

-- The mode of an entry that is copied: no directory, and its information can be read.
unfoldable pub copied_mode : DirEntry → Option ℕ
copied_mode e =
    if e.is_dir
    then none
    else elim e.mode [ none ↦ none | some mode ↦ if executable mode then some mode else none ]

abbrev pub write_copy : Bytes → ℕ → Option Bytes → Io (Unit {0})
write_copy dst mode none = throw (codes "odczyt" ∷ [])
write_copy dst mode (some text) = within (codes "zapis") (perform (write_file dst text mode))

-- A file that is copied is counted.
abbrev pub copy_entry : Bytes → Bytes → Option ℕ → Io ℕ → Io ℕ
copy_entry src dst none rest = rest
copy_entry src dst (some mode) rest = do
  u ← ask (read_file src) (write_copy dst mode)
  n ← rest
  pure (suc n)

unfoldable pub copy_entries : Bytes → Bytes → List DirEntry → Io ℕ
copy_entries src_dir dst_dir [] = pure 0
copy_entries src_dir dst_dir (e ∷ entries) =
    copy_entry (join_path src_dir e.name) (join_path dst_dir e.name) (copied_mode e)
      (copy_entries src_dir dst_dir entries)

abbrev pub copy_listing : Bytes → Bytes → DirReply → Io ℕ
copy_listing src_dir dst_dir no_dir = pure 0
copy_listing src_dir dst_dir dir_error = throw []
copy_listing src_dir dst_dir (dir_entries entries) = copy_entries src_dir dst_dir entries

unfoldable pub copy_binaries : Bytes → Bytes → Io ℕ
copy_binaries src_dir dst_dir = ask (read_dir src_dir) (copy_listing src_dir dst_dir)

-- The loop over the directories, with the sum of the counts.
unfoldable pub copy_all : Bytes → List Bytes → Io ℕ
copy_all dst_dir [] = pure 0
copy_all dst_dir (src ∷ dirs) = do
  n ← within (codes "kopiowanie binarek") (copy_binaries src dst_dir)
  more ← copy_all dst_dir dirs
  pure (n + more)

-- `%q` of a text of printable characters.
unfoldable pub escape_double : Bytes → Bytes
escape_double [] = []
escape_double (c ∷ s) =
    let rest = escape_double s in if c == b'"' || c == b'\\' then b'\\' ∷ c ∷ rest else c ∷ rest

abbrev double_quoted : Bytes → Bytes
double_quoted s = b'"' ∷ (escape_double s ++ b'"' ∷ [])

-- The script that stands for debootstrap.
unfoldable pub wrapper : Bytes → Bytes → Bytes
unfolding escape_double
wrapper share_dir real_path =
    codes "#!/bin/sh\n# Wrapper debootstrap wygenerowany przez hackeros-builder toolchain.\n"
    ++ (codes "# Ustawia DEBOOTSTRAP_DIR tak by debootstrap znalazl skrypty suite\n"
        ++ (codes "# (scripts/bookworm, scripts/trixie itp.) rozpakowane do katalogu roboczego\n"
            ++ (codes "# buildu, NIE szukal ich w /usr/share/debootstrap (ktory moze nie istniec\n"
                ++ (codes "# jesli debootstrap nie jest zainstalowany na hoscie).\n"
                    ++ (codes "export DEBOOTSTRAP_DIR="
                        ++ (double_quoted share_dir
                            ++ (codes "\nexec "
                                ++ (double_quoted real_path ++ codes " \"$@\"\n"))))))))

abbrev pub share_dir : Manager → Bytes
share_dir m = join_path (join_path m.work_dir (codes "toolchain-share")) (codes "debootstrap")

abbrev pub src_share : Bytes → Bytes
src_share extract_dir =
    join_path (join_path (join_path extract_dir (codes "usr")) (codes "share"))
      (codes "debootstrap")

unfoldable pub install_debootstrap_data : Manager → Bytes → Io (Unit {0})
install_debootstrap_data m extract_dir = do
  let orig_path = join_path m.bin_dir (codes "debootstrap")
  let real_path = join_path m.bin_dir (codes "debootstrap.real")
  u ← perform (make_dirs (share_dir m) 0o755)
  u ← within (codes "brak w rozpakowanym debootstrap") (perform (stat (src_share extract_dir)))
  u ← within (codes "kopiowanie debootstrap share") (
      perform (
        exec [] [] none (codes "cp")
          (codes "-a" ∷ (src_share extract_dir ++ codes "/.") ∷ share_dir m ∷ [])))
  u ← within (codes "rename debootstrap -> debootstrap.real") (perform (rename orig_path real_path))
  within (codes "zapis wrappera debootstrap")
      (perform (write_file orig_path (wrapper (share_dir m) real_path) 0o755))

abbrev pub bin_dirs : Bytes → List Bytes
bin_dirs extract_dir =
    join_path (join_path extract_dir (codes "usr")) (codes "bin")
    ∷ join_path (join_path extract_dir (codes "usr")) (codes "sbin")
    ∷ join_path extract_dir (codes "bin")
    ∷ join_path extract_dir (codes "sbin")
    ∷ join_path (join_path (join_path extract_dir (codes "usr")) (codes "lib")) (codes "grub")
    ∷ []

abbrev pub tmp_dir : Manager → Bytes → Bytes
tmp_dir m binary = join_path m.bin_dir (codes ".tmp-" ++ binary)

abbrev pub extract_deb : Bytes → Bytes → Io (Unit {0})
extract_deb extract_dir deb =
    within (codes "dpkg-deb --extract")
      (perform (exec [] [] none (codes "dpkg-deb") (codes "--extract" ∷ deb ∷ extract_dir ∷ [])))

-- What is done with the .deb files that were found.
unfoldable pub unpack : Manager → Tool → Bytes → List Bytes → Io (Unit {0})
unpack m t tmp debs = do
  let extract_dir = join_path tmp (codes "extracted")
  u ← perform (make_dirs extract_dir 0o755)
  u ← each (extract_deb extract_dir) debs
  copied ← copy_all m.bin_dir (bin_dirs extract_dir)
  u ←
      when (equal t.binary (codes "debootstrap"))
        (within (codes "debootstrap data") (install_debootstrap_data m extract_dir))
  u ← when (copied == 0) (throw (codes "nie skopiowano zadnych binarek" ∷ []))
  within (codes "binarka nie znaleziona w toolchain-bin/ po rozpakowaniu")
      (perform (stat (join_path m.bin_dir t.binary)))

abbrev pub found_debs : Option (List Bytes) → Io (List Bytes)
found_debs none = throw (codes "brak pobranych plikow .deb" ∷ [])
found_debs (some []) = throw (codes "brak pobranych plikow .deb" ∷ [])
found_debs (some (deb ∷ debs)) = pure (deb ∷ debs)

unfoldable pub fetch_into : Manager → Tool → Bytes → Io (Unit {0})
fetch_into m t tmp = do
  u ←
      within (codes "apt-get download")
        (perform (exec tmp [] none (codes "apt-get") (codes "download" ∷ t.apt_packages)))
  debs ← ask (glob tmp (codes "*.deb")) found_debs
  unpack m t tmp debs

unfoldable pub download_and_extract : Manager → Tool → Io (Unit {0})
download_and_extract m t = do
  let tmp = tmp_dir m t.binary
  u ← within (codes "mkdir") (perform (make_dirs tmp 0o755))
  deferring (remove_all tmp) (fetch_into m t tmp)

abbrev pub fetch_tool : Manager → Tool → Io (Unit {0})
fetch_tool m t =
    within (codes "toolchain: nie mozna przygotowac narzedzia") (download_and_extract m t)

-- The manager behind it has the PATH of the tools.
unfoldable pub prepare_all : Manager → Io Manager
prepare_all m = do
  u ← within (codes "toolchain: tworzenie") (perform (make_dirs m.bin_dir 0o755))
  path ← ask (get_env (codes "PATH")) pure
  missing ← missing_tools m build_tools
  u ← each (fetch_tool m) missing
  pure (with_path m path)

abbrev pub env_of : Manager → Bytes → Io (List Bytes)
env_of m [] =
    ask (get_env (codes "PATH"))
      λ path. pure ((codes "PATH=" ++ (with_path m path).prepared_path) ∷ [])
env_of m (c ∷ path) = pure ((codes "PATH=" ++ c ∷ path) ∷ [])

unfoldable pub env : Manager → Io (List Bytes)
env m = env_of m m.prepared_path

unfoldable pub bin_path : Manager → Bytes → Io Bytes
bin_path m binary =
    ask (act (stat (join_path m.bin_dir binary)))
      λ there. if there then pure (join_path m.bin_dir binary) else pure []
