-- ===== src/Isobuild/Calamares.antt =====
-- internal/isobuild/installer.go: the configuration of Calamares and of its start.
use hacker_os_builder.Prelude.{[], ◌∷◌, Bytes, text_lines}

abbrev pub calamares_settings_conf : Bytes
calamares_settings_conf = text_lines (
    "# Wygenerowane przez hackeros-builder -- NIE edytuj recznie w obrazie,"
    ∷ "# zmiany rob w config/hooks/normal/*.hook.chroot wlasnego projektu."
    ∷ "modules-search: [ local ]" ∷ "instances: []" ∷ "sequence:" ∷ "  - show:" ∷ "      - welcome"
    ∷ "      - locale" ∷ "      - keyboard" ∷ "      - partition" ∷ "      - users"
    ∷ "      - summary" ∷ "  - exec:" ∷ "      - partition" ∷ "      - mount" ∷ "      - unpackfs"
    ∷ "      - machineid" ∷ "      - fstab" ∷ "      - locale" ∷ "      - localecfg"
    ∷ "      - keyboard" ∷ "      - users" ∷ "      - bootloader" ∷ "      - shellprocess"
    ∷ "      - umount" ∷ "  - show:" ∷ "      - finished" ∷ "branding: hackeros"
    ∷ "prompt-install: false" ∷ "dont-chroot: false" ∷ "oem-setup: false" ∷ "disable-cancel: false"
    ∷ "disable-cancel-during-exec: true" ∷ "quit-at-end: false" ∷ [])

abbrev pub calamares_welcome_conf : Bytes
calamares_welcome_conf = text_lines (
    "---" ∷ "showSupportUrl:       false" ∷ "showKnownIssuesUrl:   false"
    ∷ "showReleaseNotesUrl:  false" ∷ "requirements:" ∷ "  requiredStorage:    4.0"
    ∷ "  requiredRam:        1.0" ∷ "  internetCheckUrl:   \"https://deb.debian.org\"" ∷ "  check:"
    ∷ "    - storage" ∷ "    - ram" ∷ "    - power" ∷ "  required:" ∷ "    - storage" ∷ "    - ram"
    ∷ [])

abbrev pub calamares_locale_conf : Bytes
calamares_locale_conf = text_lines ("---" ∷ "region: \"Etc\"" ∷ "zone: \"UTC\"" ∷ [])

abbrev pub calamares_keyboard_conf : Bytes
calamares_keyboard_conf = text_lines ("---" ∷ "defaultLayout: us" ∷ "defaultVariant: \"\"" ∷ [])

abbrev pub calamares_partition_conf : Bytes
calamares_partition_conf = text_lines (
    "---" ∷ "efiSystemPartition: \"/boot/efi\"" ∷ "userSwapChoices:" ∷ "    - none" ∷ "    - small"
    ∷ "    - suspend" ∷ "defaultFileSystemType: \"ext4\""
    ∷ "availableFileSystemTypes:  [ \"ext4\", \"btrfs\", \"xfs\" ]"
    ∷ "enableLuksAutomatedPartitioning: true" ∷ "drawNestedPartitions: false"
    ∷ "alwaysShowPartitionLabels: true" ∷ "allowManualPartitioning: true" ∷ [])

abbrev pub calamares_users_conf : Bytes
calamares_users_conf = text_lines (
    "---" ∷ "defaultGroups:" ∷ "    - users" ∷ "    - sudo" ∷ "    - audio" ∷ "    - video"
    ∷ "    - network" ∷ "    - storage" ∷ "autologinGroup:  autologin" ∷ "sudoersGroup:    sudo"
    ∷ "setRootPassword: true" ∷ "doAutologin:     false" ∷ "passwordRequirements:"
    ∷ "    nonempty: true" ∷ [])

abbrev pub calamares_unpackfs_conf : Bytes
calamares_unpackfs_conf = text_lines (
    "---" ∷ "unpack:" ∷ "    - source: \"/run/live/medium/live/filesystem.squashfs\""
    ∷ "      sourcefs: \"squashfs\"" ∷ "      destination: \"\"" ∷ [])

abbrev pub calamares_mount_conf : Bytes
calamares_mount_conf = text_lines (
    "---" ∷ "extraMounts: []" ∷ "extraMountsEfi:" ∷ "    - device: \"efivarfs\""
    ∷ "      fs: \"efivarfs\"" ∷ "      mountPoint: \"/sys/firmware/efi/efivars\"" ∷ [])

abbrev pub calamares_machineid_conf : Bytes
calamares_machineid_conf =
    text_lines ("---" ∷ "systemd: true" ∷ "dbus: true" ∷ "symlink: false" ∷ [])

abbrev pub calamares_fstab_conf : Bytes
calamares_fstab_conf = text_lines (
    "---" ∷ "efiMountPoint: \"/boot/efi\"" ∷ "crypttabOptions: [ \"luks\", \"keyscript=/bin/cat\" ]"
    ∷ [])

abbrev pub calamares_bootloader_conf : Bytes
calamares_bootloader_conf = text_lines (
    "---" ∷ "efiBootLoader:        \"grub\"" ∷ "kernel: \"/boot/vmlinuz\""
    ∷ "img:    \"/boot/initrd.img\"" ∷ "grubInstall:          \"grub-install\""
    ∷ "grubMkconfig:         \"grub-mkconfig\"" ∷ "grubCfg:              \"/boot/grub/grub.cfg\""
    ∷ "grubProbe:            \"grub-probe\"" ∷ "efiBootMgr:           \"efibootmgr\""
    ∷ "installEFIFallback:   true" ∷ "timeout: \"10\"" ∷ [])

abbrev pub calamares_umount_conf : Bytes
calamares_umount_conf = text_lines ("---" ∷ [])

abbrev pub calamares_shellprocess_conf : Bytes
calamares_shellprocess_conf = text_lines (
    "---" ∷ "dontChroot: false" ∷ "timeout: 30" ∷ "script:"
    ∷ "    - command: \"mkdir -p /etc/deb-ostree\"" ∷ [])

abbrev pub calamares_branding_desc : Bytes
calamares_branding_desc = text_lines (
    "---" ∷ "componentName:  hackeros" ∷ "" ∷ "welcomeStyleCalamares: true"
    ∷ "welcomeExpandingLogo:  true" ∷ "" ∷ "strings:" ∷ "    productName:         \"HackerOS\""
    ∷ "    shortProductName:    \"HackerOS\"" ∷ "    version:              \"\""
    ∷ "    shortVersion:         \"\"" ∷ "    versionedName:        \"HackerOS\""
    ∷ "    shortVersionedName:   \"HackerOS\"" ∷ "    bootloaderEntryName:  \"HackerOS\""
    ∷ "    productUrl:           \"https://github.com/HackerOS-Linux-System\""
    ∷ "    supportUrl:           \"https://github.com/HackerOS-Linux-System\""
    ∷ "    releaseNotesUrl:      \"https://github.com/HackerOS-Linux-System\"" ∷ "" ∷ "images:"
    ∷ "    productLogo:         \"logo.png\"" ∷ "    productIcon:         \"logo.png\""
    ∷ "    productWelcome:      \"welcome.png\"" ∷ "" ∷ "slideshow: \"show.qml\"" ∷ "" ∷ "style:"
    ∷ "   sidebarBackground:       \"#1d2023\"" ∷ "   sidebarText:             \"#ffffff\""
    ∷ "   sidebarTextSelect:       \"#3daee9\"" ∷ "   sidebarTextHighlight:    \"#3daee9\"" ∷ [])

abbrev pub override_conf : Bytes
override_conf = text_lines (
    "[Service]" ∷ "ExecStart=" ∷ "ExecStart=-/sbin/agetty --autologin root --noclear %I $TERM" ∷ [])

abbrev pub bash_profile : Bytes
bash_profile = text_lines (
    "# Wygenerowane przez hackeros-builder: autostart instalatora GUI na tty1."
    ∷ "if [ -z \"$DISPLAY\" ] && [ \"$(tty)\" = \"/dev/tty1\" ] && [ ! -f /run/hackeros-installer-started ]; then"
    ∷ "    touch /run/hackeros-installer-started"
    ∷ "    exec startx /usr/local/sbin/hackeros-installer-xinit -- -nocursor" ∷ "fi" ∷ [])

abbrev pub xinit_script : Bytes
xinit_script = text_lines (
    "#!/bin/sh" ∷ "# Wygenerowane przez hackeros-builder."
    ∷ "openbox --config-file /etc/hackeros-installer/openbox-rc.xml &" ∷ "exec calamares -d" ∷ [])

abbrev pub openbox_rc : Bytes
openbox_rc = text_lines (
    "<?xml version=\"1.0\" encoding=\"UTF-8\"?>"
    ∷ "<openbox_config xmlns=\"http://openbox.org/3.4/rc\">"
    ∷ "  <theme><name>Clearlooks</name></theme>" ∷ "  <applications>"
    ∷ "    <application class=\"*\"><decor>no</decor><maximized>true</maximized><fullscreen>yes</fullscreen></application>"
    ∷ "  </applications>" ∷ "</openbox_config>" ∷ [])
