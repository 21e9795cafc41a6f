-- ===== src/Rootfs/Contents.antt =====
-- internal/rootfs: the packages and the texts of a rootfs.
use hacker_os_builder.Prelude.{List, [], ◌∷◌, ◌++◌, Bytes, codes}
use hacker_os_builder.Config.{MacSystem, app_armor, se_linux}

abbrev pub mac_packages : MacSystem → List Bytes
mac_packages se_linux =
    codes "selinux-basics"
    ∷ codes "selinux-policy-default"
    ∷ codes "policycoreutils"
    ∷ codes "policycoreutils-python-utils"
    ∷ codes "auditd"
    ∷ []
mac_packages app_armor = codes "apparmor" ∷ codes "apparmor-profiles" ∷ codes "apparmor-utils" ∷ []

abbrev pub preseed : Bytes
preseed =
    codes "keyboard-configuration\tkeyboard-configuration/layout\tselect\tEnglish (US)\n"
    ++ (codes "keyboard-configuration\tkeyboard-configuration/layoutcode\tstring\tus\n"
        ++ (codes "keyboard-configuration\tkeyboard-configuration/variant\tselect\tEnglish (US)\n"
            ++ (codes "keyboard-configuration\tkeyboard-configuration/modelcode\tstring\tpc105\n"
                ++ (codes
                      "keyboard-configuration\tkeyboard-configuration/model\tselect\tGeneric 105-key PC (intl.)\n"
                    ++ (codes
                          "keyboard-configuration\tkeyboard-configuration/altgr\tselect\tThe default for the keyboard layout\n"
                        ++ (codes
                              "keyboard-configuration\tkeyboard-configuration/unsupported_layout\tboolean\ttrue\n"
                            ++ (codes
                                  "keyboard-configuration\tkeyboard-configuration/unsupported_options\tboolean\ttrue\n"
                                ++ (codes "tzdata\ttzdata/Areas\tselect\tEtc\n"
                                    ++ (codes "tzdata\ttzdata/Zones/Etc\tselect\tUTC\n"
                                        ++ (codes
                                              "locales\tlocales/default_environment_locale\tselect\tC.UTF-8\n"
                                            ++ (codes
                                                  "locales\tlocales/locales_to_be_generated\tmultiselect\ten_US.UTF-8 UTF-8\n"
                                                ++ (codes
                                                      "debconf\tdebconf/frontend\tselect\tNoninteractive\n"
                                                    ++ (codes
                                                          "debconf\tdebconf/priority\tselect\tcritical\n"
                                                        ++ codes
                                                            "man-db\tman-db/auto-update\tboolean\tfalse\n")))))))))))))

-- The libraries of deb-ostree.
abbrev pub deb_ostree_deps : List Bytes
deb_ostree_deps =
    codes "libsolv1"
    ∷ codes "libostree-1-1"
    ∷ codes "libarchive13t64"
    ∷ codes "libcurl3t64-gnutls"
    ∷ codes "libglib2.0-0t64"
    ∷ codes "libgpgme11t64"
    ∷ codes "libselinux1"
    ∷ codes "libsystemd0"
    ∷ codes "liblzma5"
    ∷ codes "zlib1g"
    ∷ []

-- The arguments of `apt-get` before the packages.
abbrev pub install_args : List Bytes
install_args =
    codes "install"
    ∷ codes "-y"
    ∷ codes "--no-install-recommends"
    ∷ codes "-o"
    ∷ codes "Dpkg::Options::=--force-confdef"
    ∷ codes "-o"
    ∷ codes "Dpkg::Options::=--force-confold"
    ∷ []

abbrev pub assume_yes : List Bytes
assume_yes = codes "-o" ∷ codes "APT::Get::Assume-Yes=true" ∷ []

abbrev pub apt_get : Bytes
apt_get = codes "apt-get"

abbrev pub sudo_stub : Bytes
sudo_stub =
    codes "#!/bin/sh\n# sudo-stub wygenerowany przez hackeros-builder.\n"
    ++ (codes "# Hooki pisane z mysl"
        ++ (0xC4 ∷ 0x85 ∷ codes " o normalnej maszynie uzywaja 'sudo <cmd>' -- wewnatrz\n"
            ++ (codes "# kontenera nspawn build jest rootem, wiec sudo jest zbedne. Ten stub\n"
                ++ (codes
                      "# po prostu odpala komende bezposrednio, eliminujac \"sudo: not found\".\n"
                    ++ codes "exec \"$@\"\n"))))
