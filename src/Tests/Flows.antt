-- ===== src/Tests/Flows.antt =====
-- The theorems about internal/buildflow at concrete inputs.
use hacker_os_builder.Prelude.{Bool, true, false, none, some, [], ◌∷◌, codes, equal, ◌≡◌, refl}
use hacker_os_builder.Config.{image_tag, image_repository, requires_live_build, ascii_lower}
use hacker_os_builder.Liveparse.{absent, join_path}
use hacker_os_builder.Buildflow.{
  Host, image_push, done, return, load_and_validate_config, CloudOptions, CloudResult, deliver,
  push_image, build_cloud, IsoOptions, build_iso, iso_repository, iso_tag, AllOptions,
  all_cloud_options, all_iso_options, build_all, image_name_of, default_image_name, ◌>>>◌,
}
use hacker_os_builder.Buildflow.Guarded.{
  fresh, guarded, IsGuarded, build_all-IsGuarded, build_cloud-IsGuarded, build_iso_unguarded,
}
use hacker_os_builder.Buildflow.Image.{deliver-iso_repository}
use hacker_os_builder.Tests.HkReferences.{shell}
use hacker_os_builder.Tests.Projects.{config_text, config, config_text-loaded}

-- A project with a configuration and nothing else, on a host where every step succeeds but the
-- rootfs, as `builds` says.
abbrev host : Bool → Host
host builds = record {
  env = shell;
  look_path = λ b. true;
  config_file = λ p. some config_text;
  tree = λ p. record {
    root = p;
    config_is_dir = true;
    package_lists = absent;
    hooks_normal = absent;
    includes_is_dir = false;
    archives = absent;
  };
  abs = λ p. some p;
  base = λ p. codes "image";
  lock_free = λ d. true;
  can_build_rootfs = λ p c d. builds;
  can_run_live_build = λ p. true;
  can_make_dir = λ d. true;
  can_push = λ r t d. true;
  can_pull = λ r t d. true;
  can_write = λ p. true;
  can_build_iso = λ d o s. true;
}

abbrev all_options : AllOptions
all_options = record {
  project_dir = codes "/p";
  work_dir = codes "/w";
  output_iso = codes "/o.iso";
  insecure_registry = false;
  skip_installer = false;
}

abbrev cloud_options : CloudOptions
cloud_options = record {
  project_dir = codes "/p";
  work_dir = codes "/w";
  insecure_registry = false;
  skip_preflight = false;
  skip_lock = false;
}

abbrev iso_options : IsoOptions
iso_options = record {
  project_dir = codes "/p";
  work_dir = codes "/w";
  output_iso = codes "/o.iso";
  repository = [];
  tag = [];
  insecure_registry = false;
  skip_preflight = true;
  skip_installer = false;
}

build_all-IsGuarded_example : IsGuarded (codes "/w") (build_all (host false) all_options)
build_all-IsGuarded_example = build_all-IsGuarded (host false) all_options

build_cloud-IsGuarded_example : IsGuarded (codes "/w") (build_cloud (host true) cloud_options)
build_cloud-IsGuarded_example = build_cloud-IsGuarded (host true) cloud_options refl

host-config : load_and_validate_config (host true) (codes "/p") ≡ return config
unfolding load_and_validate_config
host-config = rw config_text-loaded refl

build_iso_unguarded_example :
    guarded (codes "/w") fresh (build_iso (host true) iso_options).0 ≡ none
build_iso_unguarded_example = build_iso_unguarded (host true) iso_options config refl host-config

abbrev result : CloudResult
result = record {
  repository = codes "ghcr.io/michal/image";
  tag = codes "latest";
  refspec = codes "deb-ostree-oci:ghcr.io/michal/image:latest";
}

delivered : deliver (host true) (all_cloud_options all_options) config ≡ (
  image_push (codes "ghcr.io/michal/image") (codes "latest") (codes "/w/rootfs") ∷ [],
  done result,
)
unfolding deliver push_image ◌>>>◌ image_repository image_name_of default_image_name image_tag
    requires_live_build ascii_lower equal
delivered = refl

atomic : requires_live_build config.project ≡ false
unfolding requires_live_build
atomic = refl

deliver-iso_repository_example :
    (image_push (codes "ghcr.io/michal/image") (codes "latest") (codes "/w/rootfs") ∷ [])
    ≡ image_push
        (iso_repository (host true) (all_iso_options all_options result) config)
        (iso_tag (all_iso_options all_options result) config)
        (join_path (codes "/w") (codes "rootfs"))
      ∷ []
deliver-iso_repository_example =
    deliver-iso_repository (host true) all_options config
      (image_push (codes "ghcr.io/michal/image") (codes "latest") (codes "/w/rootfs") ∷ []) result
      atomic delivered config
