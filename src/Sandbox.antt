-- ===== src/Sandbox.antt =====
-- internal/sandbox/sandbox.go: a command in the rootfs, as a script of the shell in namespaces of
-- its own.
pub mod Quoting
use hacker_os_builder.Prelude.{
  ℕ, Option, none, some, List, [], ◌∷◌, ◌++◌, if◌then◌else◌, ◌==◌, Bytes, codes,
}
use hacker_os_builder.Liveparse.{join_path}
use hacker_os_builder.System.{Action, make_dirs, exec, Io, ◌>>=◌, perform, within, each}

abbrev pub noninteractive_env : List Bytes
noninteractive_env =
    codes "DEBIAN_FRONTEND=noninteractive"
    ∷ codes "DEBCONF_NONINTERACTIVE_SEEN=true"
    ∷ codes "DEBCONF_NOWARNINGS=yes"
    ∷ codes "LC_ALL=C"
    ∷ codes "LANG=C"
    ∷ codes "LANGUAGE=C"
    ∷ codes "PATH=/usr/local/sbin:/usr/local/bin:/usr/sbin:/usr/bin:/sbin:/bin"
    ∷ []

-- A quote is replaced by a quote that closes, one behind a backslash and one that opens.
unfoldable pub escape_quotes : Bytes → Bytes
escape_quotes [] = []
escape_quotes (c ∷ s) =
    let rest = escape_quotes s in
    if c == b'\'' then b'\'' ∷ b'\\' ∷ b'\'' ∷ b'\'' ∷ rest else c ∷ rest

unfoldable pub quot : Bytes → Bytes
quot s = b'\'' ∷ (escape_quotes s ++ b'\'' ∷ [])

unfoldable pub quoted_args : List Bytes → Bytes
quoted_args [] = []
quoted_args (a ∷ []) = quot a
quoted_args (a ∷ b ∷ args) = quot a ++ b' ' ∷ quoted_args (b ∷ args)

-- The constant parts of the script.
abbrev pub script_start : Bytes
script_start = codes "set -e\nROOTFS="

abbrev pub mount_lines : Bytes
mount_lines =
    codes "mount -t proc    proc       \"$ROOTFS/proc\"\n"
    ++ (codes "mount -t sysfs   sysfs      \"$ROOTFS/sys\"\n"
        ++ (codes "mount --bind     /dev       \"$ROOTFS/dev\"\n"
            ++ (codes "mount --bind     /dev/pts   \"$ROOTFS/dev/pts\"\n"
                ++ (codes "_cleanup() {\n"
                    ++ (codes "    umount -l \"$ROOTFS/dev/pts\" 2>/dev/null || true\n"
                        ++ (codes "    umount -l \"$ROOTFS/dev\"     2>/dev/null || true\n"
                            ++ (codes "    umount -l \"$ROOTFS/sys\"     2>/dev/null || true\n"
                                ++ (codes "    umount -l \"$ROOTFS/proc\"    2>/dev/null || true\n"
                                    ++ codes
                                        "}\ntrap _cleanup EXIT\nexec chroot \"$ROOTFS\" "))))))))

unfoldable pub build_mount_and_chroot_script : Bytes → Bytes → List Bytes → Bytes
build_mount_and_chroot_script rootfs_dir command args =
    script_start
    ++ (quot rootfs_dir
        ++ b'\n' ∷ (mount_lines ++ (quot command ++ b' ' ∷ (quoted_args args ++ b'\n' ∷ []))))

abbrev pub mount_points : List Bytes
mount_points = codes "proc" ∷ codes "sys" ∷ codes "dev" ∷ codes "dev/pts" ∷ []

-- The command that is run: the variables are added to those of the process, the later ones win.
unfoldable pub unshare : Bytes → List Bytes → Option Bytes → Bytes → List Bytes → Action
unshare rootfs_dir extra_env stdin command args =
    exec [] (noninteractive_env ++ extra_env) stdin (codes "unshare") (
      codes "--mount"
      ∷ codes "--pid"
      ∷ codes "--fork"
      ∷ codes "--uts"
      ∷ codes "--kill-child"
      ∷ codes "sh"
      ∷ codes "-e"
      ∷ codes "-c"
      ∷ build_mount_and_chroot_script rootfs_dir command args
      ∷ [])

abbrev pub make_mount_point : Bytes → Bytes → Io (Unit {0})
make_mount_point rootfs_dir sub =
    within (codes "sandbox: mkdir w rootfs") (perform (make_dirs (join_path rootfs_dir sub) 0o755))

unfoldable pub exec_internal :
    Bytes → List Bytes → Option Bytes → Bytes → List Bytes → Io (Unit {0})
exec_internal rootfs_dir extra_env stdin command args =
    each (make_mount_point rootfs_dir) mount_points >>= λ u.
    within (codes "sandbox: exec nie powiodl sie")
      (perform (unshare rootfs_dir extra_env stdin command args))

unfoldable pub exec_in : Bytes → Bytes → List Bytes → Io (Unit {0})
exec_in rootfs_dir command args = exec_internal rootfs_dir [] none command args

unfoldable pub exec_env : Bytes → List Bytes → Bytes → List Bytes → Io (Unit {0})
exec_env rootfs_dir extra_env command args = exec_internal rootfs_dir extra_env none command args

unfoldable pub exec_with_stdin : Bytes → Bytes → Bytes → List Bytes → Io (Unit {0})
exec_with_stdin rootfs_dir data_in command args =
    exec_internal rootfs_dir [] (some data_in) command args
