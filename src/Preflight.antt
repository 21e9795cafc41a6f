-- ===== src/Preflight.antt =====
-- internal/preflight/check.go: which of the required tools are missing.
pub mod Missing
use hacker_os_builder.Prelude.{
  ℕ, Bool, true, false, not, ◌&&◌, ◌||◌, Option, none, some, List, [], ◌∷◌, ◌++◌, if◌then◌else◌,
  Bytes, codes, mem, is_empty,
}
use hacker_os_builder.Text.Order.{sort_by}

pub record Tool : Type 0 where
  pub binary : Bytes
  pub apt_package : Bytes
  pub used_for_step : Bytes

abbrev pub cloud_tools : List Tool
cloud_tools =
    record {
      binary = codes "unshare";
      apt_package = codes "util-linux";
      used_for_step = codes "sandbox: izolacja namespace mount/PID/UTS dla operacji w chroot";
    }
    ∷ record {
      binary = codes "dpkg-deb";
      apt_package = codes "dpkg";
      used_for_step =
          codes "toolchain: rozpakowywanie .deb narzedzi build-time bez instalacji na hoscie";
    }
    ∷ []

abbrev pub iso_tools : List Tool
iso_tools =
    record {
      binary = codes "mksquashfs";
      apt_package = codes "squashfs-tools";
      used_for_step = codes "build iso: pakowanie rootfs do filesystem.squashfs";
    }
    ∷ record {
      binary = codes "grub-mkrescue";
      apt_package = codes "grub-pc-bin lub grub-efi-amd64-bin";
      used_for_step = codes "build iso: budowa hybrydowego ISO BIOS+UEFI";
    }
    ∷ record {
      binary = codes "xorriso";
      apt_package = codes "xorriso";
      used_for_step =
          codes "build iso: tworzenie obrazu ISO (uzywane wewnetrznie przez grub-mkrescue)";
    }
    ∷ []

-- The data of the error: the missing tools by name, and the packages to install.
pub record MissingTools : Type 0 where
  pub tools : List Tool
  pub packages : List Bytes

-- The loop over the tools; `look_path` tells whether exec.LookPath finds a binary.
unfoldable pub missing_tools : (Bytes → Bool) → List Bytes → List Tool → List Tool
unfolding mem
missing_tools look_path seen [] = []
missing_tools look_path seen (t ∷ tools) =
    let skipped = missing_tools look_path seen tools in
    let rest = missing_tools look_path (t.binary ∷ seen) tools in
    if mem t.binary seen then skipped else if look_path t.binary then rest else t ∷ rest

unfoldable pub packages_of : List Bytes → List Tool → List Bytes
unfolding mem
packages_of seen [] = []
packages_of seen (t ∷ tools) =
    let skipped = packages_of seen tools in
    let rest = packages_of (t.apt_package ∷ seen) tools in
    if mem t.apt_package seen then skipped else t.apt_package ∷ rest

abbrev pub binary_of : Tool → Bytes
binary_of t = t.binary

-- `none` is success.
unfoldable pub check_tools : (Bytes → Bool) → List Tool → Option MissingTools
unfolding packages_of
check_tools look_path tools =
    let missing = missing_tools look_path [] tools in
    let sorted = sort_by binary_of missing in
    if is_empty missing
    then none
    else some (record { tools = sorted; packages = packages_of [] sorted })

unfoldable pub check_cloud : (Bytes → Bool) → Option MissingTools
check_cloud look_path = check_tools look_path cloud_tools

unfoldable pub check_iso : (Bytes → Bool) → Option MissingTools
check_iso look_path = check_tools look_path iso_tools

unfoldable pub check_all : (Bytes → Bool) → Option MissingTools
check_all look_path = check_tools look_path (cloud_tools ++ iso_tools)
