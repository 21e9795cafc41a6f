-- ===== src/Hkgen/Settings.antt =====
-- The settings that deb-ostree finds in the generated configuration.
use hacker_os_builder.Prelude.{ℕ, some, [], ◌∷◌, Bytes, codes, equal, ◌≡◌, refl}
use hacker_os_builder.Hk.Errors.{ok, err, missing_field}
use hacker_os_builder.Hk.OrderedMap.{get, set, new_ordered_map}
use hacker_os_builder.Hk.Value.{string, as_map, must_get}
use hacker_os_builder.Hk.Store.{write, alloc, set_at, HkConfig, new_hk_config}
use hacker_os_builder.Hk.Config.{section}
use hacker_os_builder.Hk.Builder.{builder_section, builder_set}
use hacker_os_builder.Hkgen.{
  DebOstreeConfigParams, or_default, put, put_origin, generate_deb_ostree_config,
}

-- A section has a key with this text.
abbrev pub Holds : HkConfig → Bytes → Bytes → Bytes → Type 0
Holds c name key val =
    (m : ℕ) × (section c name ≡ ok m) × (get (c.store.cell m) key ≡ some (string val))

abbrev pub HoldsOrigin : HkConfig → Bytes → Type 0
HoldsOrigin c [] = section c (codes "origin") ≡ err (missing_field (codes "origin"))
HoldsOrigin c (d ∷ refspec) = Holds c (codes "origin") (codes "refspec") (d ∷ refspec)

pub record HasSettings (p : DebOstreeConfigParams) (c : HkConfig) : Type 0 where
  pub sysroot : Holds c (codes "sysroot") (codes "path") (or_default p.sysroot_path (codes "/"))
  pub ostree :
      Holds c
        (codes "ostree")
        (codes "repo_path")
        (or_default p.ostree_repo_path (codes "/ostree/repo"))
  pub system : Holds c (codes "system") (codes "osname") (or_default p.os_name (codes "debian"))
  pub overlay :
      Holds c
        (codes "overlay")
        (codes "work_dir")
        (or_default p.overlay_work_dir (codes "/var/lib/deb-ostree/overlay-work"))
  pub apt :
      Holds c
        (codes "apt")
        (codes "lists_path")
        (or_default p.apt_lists_path (codes "/var/lib/deb-ostree/apt-cache"))
  pub origin : HoldsOrigin c p.origin_refspec

module _ (sysroot_path ostree_repo_path os_name overlay_work_dir apt_lists_path : Bytes) where
  abbrev params : Bytes → DebOstreeConfigParams
  params origin_refspec = record {
    sysroot_path = sysroot_path;
    ostree_repo_path = ostree_repo_path;
    os_name = os_name;
    overlay_work_dir = overlay_work_dir;
    apt_lists_path = apt_lists_path;
    origin_refspec = origin_refspec;
  }

  settings :
      (origin : Bytes)
      → (c : HkConfig) × (generate_deb_ostree_config (params origin) ≡ ok c)
        × HasSettings (params origin) c
  unfolding generate_deb_ostree_config put put_origin builder_section builder_set get set
      new_ordered_map new_hk_config alloc set_at write section equal as_map must_get
  settings [] = (
    _,
    refl,
    record {
      sysroot = (1, refl, refl);
      ostree = (2, refl, refl);
      system = (3, refl, refl);
      overlay = (4, refl, refl);
      apt = (5, refl, refl);
      origin = refl;
    },
  )
  settings (d ∷ refspec) = (
    _,
    refl,
    record {
      sysroot = (1, refl, refl);
      ostree = (2, refl, refl);
      system = (3, refl, refl);
      overlay = (4, refl, refl);
      apt = (5, refl, refl);
      origin = (6, refl, refl);
    },
  )

-- GenerateDebOstreeConfig returns a configuration in which each of the five fixed settings has
-- the parameter, or its default where the parameter is empty; the section of the origin holds the
-- refspec, and is not there where the refspec is empty.
pub generate_deb_ostree_config-HasSettings :
    (p : DebOstreeConfigParams)
    → (c : HkConfig) × (generate_deb_ostree_config p ≡ ok c) × HasSettings p c
generate_deb_ostree_config-HasSettings p =
    settings p.sysroot_path p.ostree_repo_path p.os_name p.overlay_work_dir p.apt_lists_path
      p.origin_refspec
