-- ===== src/Hkgen.antt =====
-- internal/hkgen/debostree_config.go: the configuration of deb-ostree in an image.
pub mod Settings
use hacker_os_builder.Prelude.{
  ℕ, Bool, true, false, Option, none, some, List, [], ◌∷◌, ◌++◌, is_empty, if◌then◌else◌, Bytes,
  codes, equal, ◌≡◌, refl, arith,
}
use hacker_os_builder.Hk.Errors.{Result, ok, err, panic, ◌>>=◌}
use hacker_os_builder.Hk.OrderedMap.{get, set, new_ordered_map}
use hacker_os_builder.Hk.Path.{split_from, split_path, index_digits, index_in, parse_array_index}
use hacker_os_builder.Hk.Value.{HkValue, string, map, as_map}
use hacker_os_builder.Hk.Store.{Store, write, alloc, set_at, HkConfig, new_hk_config}
use hacker_os_builder.Hk.Config.{section, get_loop, get_path, get_segments, get_step, select}
use hacker_os_builder.Hk.Builder.{builder_section, builder_set}

pub record DebOstreeConfigParams : Type 0 where
  pub sysroot_path : Bytes
  pub ostree_repo_path : Bytes
  pub os_name : Bytes
  pub overlay_work_dir : Bytes
  pub apt_lists_path : Bytes
  pub origin_refspec : Bytes

abbrev pub or_default : Bytes → Bytes → Bytes
or_default [] def = def
or_default (c ∷ val) def = c ∷ val

-- `b.Section(name).Set(key, hk.String(val))`
unfoldable pub put : HkConfig → Bytes → Bytes → Bytes → Result HkConfig
put c name key val =
    let built = builder_section c name in builder_set built.0 built.1 key (string val)

unfoldable pub put_origin : HkConfig → Bytes → Result HkConfig
put_origin c [] = ok c
put_origin c (d ∷ refspec) = put c (codes "origin") (codes "refspec") (d ∷ refspec)

unfoldable pub generate_deb_ostree_config : DebOstreeConfigParams → Result HkConfig
generate_deb_ostree_config p =
    put new_hk_config (codes "sysroot") (codes "path") (or_default p.sysroot_path (codes "/"))
    >>= λ c.
        put c (codes "ostree") (codes "repo_path")
          (or_default p.ostree_repo_path (codes "/ostree/repo"))
        >>= λ c'.
            put c' (codes "system") (codes "osname") (or_default p.os_name (codes "debian"))
            >>= λ c''.
                put c'' (codes "overlay") (codes "work_dir")
                  (or_default p.overlay_work_dir (codes "/var/lib/deb-ostree/overlay-work"))
                >>= λ d.
                    put d (codes "apt") (codes "lists_path")
                      (or_default p.apt_lists_path (codes "/var/lib/deb-ostree/apt-cache"))
                    >>= λ d'. put_origin d' p.origin_refspec
