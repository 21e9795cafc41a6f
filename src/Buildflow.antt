-- ===== src/Buildflow.antt =====
-- internal/buildflow (cloud.go, iso.go, all.go) with internal/buildlock/lock.go: the flows of the
-- commands, as the list of the steps that they take outside and their outcome.
pub mod Guarded
pub mod Image
use hacker_os_builder.Prelude.{
  ℕ, Bool, true, false, not, ◌&&◌, ◌||◌, Option, none, some, List, [], ◌∷◌, ◌++◌, if◌then◌else◌,
  Bytes, codes, equal, is_empty,
}
use hacker_os_builder.Hk.Interpolate.{Surroundings}
use hacker_os_builder.Config.{
  ProjectType, project_normal, project_independent, ProjectConfig, Config, ConfigError, Loading,
  loaded, refused, crashed, load, requires_live_build, use_builtin_installer, image_tag,
  image_repository,
}
use hacker_os_builder.Liveparse.{
  Tree, Project, ProjectError, Parsed, got, broken, parse_project, join_path,
}
use hacker_os_builder.Preflight.{MissingTools, check_cloud, check_iso, check_all}

-- What the flows ask of the system, and whether each step outside succeeds. `abs` is filepath.Abs;
-- `lock_free` tells whether the directory of a lock can be made, its file opened and locked.
pub record Host : Type 0 where
  pub env : Surroundings
  pub look_path : Bytes → Bool
  pub config_file : Bytes → Option Bytes
  pub tree : Bytes → Tree
  pub abs : Bytes → Option Bytes
  pub base : Bytes → Bytes
  pub lock_free : Bytes → Bool
  pub can_build_rootfs : Project → Config → Bytes → Bool
  pub can_run_live_build : Bytes → Bool
  pub can_make_dir : Bytes → Bool
  pub can_push : Bytes → Bytes → Bytes → Bool
  pub can_pull : Bytes → Bytes → Bytes → Bool
  pub can_write : Bytes → Bool
  pub can_build_iso : Bytes → Bytes → Bool → Bool

-- A step outside: a lock taken or given back, a build, an image that is pushed or pulled.
pub data Step : Type 0 where
  lock_acquired lock_released : Bytes → Step
  rootfs_build live_build : Bytes → Step
  image_push image_pull : Bytes → Bytes → Bytes → Step
  origin_write : Bytes → Bytes → Step
  iso_build : Bytes → Bytes → Bool → Step

pub data FlowError : Type 0 where
  tools_missing : MissingTools → FlowError
  dir_locked : Bytes → FlowError
  config_refused : ConfigError → FlowError
  config_crashed : FlowError
  project_refused : ProjectError → FlowError
  rootfs_failed live_build_missing live_build_failed dir_failed push_failed : FlowError
  pull_failed origin_failed iso_failed : FlowError

pub data Outcome {ℓ} (V : Type ℓ) : Type ℓ where
  done : V → Outcome V
  failed : FlowError → Outcome V

-- The steps that were taken, and how it ended.
abbrev pub Flow {ℓ} : Type ℓ → Type ℓ
Flow V = List Step × Outcome V

abbrev pub fail {ℓ} : {V : Type ℓ} → FlowError → Flow V
fail e = ([], failed e)

abbrev pub return {ℓ} : {V : Type ℓ} → V → Flow V
return v = ([], done v)

abbrev pub after {ℓ κ} : {V : Type ℓ} {W : Type κ} → List Step → Outcome V → (V → Flow W) → Flow W
after steps (done v) f = (steps ++ (f v).0, (f v).1)
after steps (failed e) f = (steps, failed e)

infixl 5 ◌>>>◌
unfoldable pub ◌>>>◌ {ℓ κ} : {V : Type ℓ} {W : Type κ} → Flow V → (V → Flow W) → Flow W
m >>> f = after m.0 m.1 f

-- A step that is tried: it is in the list whether it succeeds or not.
abbrev pub try_step : Step → Bool → FlowError → Flow (Unit {0})
try_step s ok e = (s ∷ [], if ok then done tt else failed e)

abbrev pub require : Bool → FlowError → Flow (Unit {0})
require ok e = if ok then return tt else fail e

abbrev pub pass_check : Option MissingTools → Flow (Unit {0})
pass_check none = return tt
pass_check (some missing) = fail (tools_missing missing)

-- Acquire, and the Release that is deferred: the lock is given back however the body ends. A lock
-- that is not to be had leaves no step.
unfoldable pub with_lock {ℓ} : {V : Type ℓ} → Host → Bytes → Flow V → Flow V
with_lock h dir body =
    if h.lock_free dir
    then (lock_acquired dir ∷ (body.0 ++ lock_released dir ∷ []), body.1)
    else fail (dir_locked dir)

abbrev pub default_registry_host : Bytes
default_registry_host = codes "ghcr.io"

unfoldable pub default_image_name : Host → Bytes → Bytes
default_image_name h project_dir = elim (h.abs project_dir) [
  | none ↦ codes "hackeros-image"
  | some abs ↦ h.base abs
]

abbrev pub config_flow : Loading Config → Flow Config
config_flow (loaded cfg) = return cfg
config_flow (refused e) = fail (config_refused e)
config_flow crashed = fail config_crashed

unfoldable pub load_and_validate_config : Host → Bytes → Flow Config
load_and_validate_config h project_dir = config_flow (
    load h.env
      (h.config_file (join_path (join_path project_dir (codes "config")) (codes "config.hk"))))

abbrev pub project_flow : Parsed Project → Flow Project
project_flow (got p) = return p
project_flow (broken e) = fail (project_refused e)

pub record CloudOptions : Type 0 where
  pub project_dir : Bytes
  pub work_dir : Bytes
  pub insecure_registry : Bool
  pub skip_preflight : Bool
  pub skip_lock : Bool

pub record CloudResult : Type 0 where
  pub repository : Bytes
  pub tag : Bytes
  pub refspec : Bytes

unfoldable pub image_name_of : Host → Bytes → Config → Bytes
image_name_of h project_dir cfg =
    if is_empty cfg.project.name then default_image_name h project_dir else cfg.project.name

unfoldable pub run_live_build : Host → Bytes → Flow CloudResult
run_live_build h project_dir =
    try_step (live_build project_dir) (h.can_run_live_build project_dir) live_build_failed >>> λ u.
    return (record { repository = []; tag = []; refspec = [] })

-- `BuildAndPush` answers "repository:tag".
unfoldable pub push_image : Host → Bytes → Bytes → Bytes → Flow CloudResult
push_image h work_dir repository tag =
    require (h.can_make_dir (join_path work_dir (codes "oci-push"))) dir_failed >>> λ u.
    (try_step (image_push repository tag (join_path work_dir (codes "rootfs")))
        (h.can_push repository tag (join_path work_dir (codes "rootfs"))) push_failed
      >>> λ u'. return (record {
        repository = repository;
        tag = tag;
        refspec = codes "deb-ostree-oci:" ++ (repository ++ b':' ∷ tag);
      }))

-- What BuildCloud does behind its rootfs.
unfoldable pub deliver : Host → CloudOptions → Config → Flow CloudResult
deliver h opts cfg =
    if requires_live_build cfg.project
    then (if h.look_path (codes "lb")
        then run_live_build h opts.project_dir
        else fail live_build_missing)
    else push_image h opts.work_dir
        (image_repository cfg default_registry_host (image_name_of h opts.project_dir cfg))
        (image_tag cfg.project)

unfoldable pub cloud_steps : Host → CloudOptions → Flow CloudResult
cloud_steps h opts = load_and_validate_config h opts.project_dir >>> λ cfg.
    (project_flow (parse_project (h.tree opts.project_dir)) >>> λ project.
    (try_step (rootfs_build (join_path opts.work_dir (codes "rootfs")))
        (h.can_build_rootfs project cfg (join_path opts.work_dir (codes "rootfs"))) rootfs_failed
      >>> λ u. deliver h opts cfg))

unfoldable pub build_cloud : Host → CloudOptions → Flow CloudResult
build_cloud h opts =
    (if opts.skip_preflight then return tt else pass_check (check_cloud h.look_path)) >>> λ u.
    (if opts.skip_lock then cloud_steps h opts else with_lock h opts.work_dir (cloud_steps h opts))

pub record IsoOptions : Type 0 where
  pub project_dir : Bytes
  pub work_dir : Bytes
  pub output_iso : Bytes
  pub repository : Bytes
  pub tag : Bytes
  pub insecure_registry : Bool
  pub skip_preflight : Bool
  pub skip_installer : Bool

-- The repository and the tag that BuildIso pulls from.
unfoldable pub iso_repository : Host → IsoOptions → Config → Bytes
iso_repository h opts cfg =
    if is_empty opts.repository
    then image_repository cfg default_registry_host (default_image_name h opts.project_dir)
    else opts.repository

unfoldable pub iso_tag : IsoOptions → Config → Bytes
iso_tag opts cfg = if is_empty opts.tag then cfg.release else opts.tag

-- The path of the pulled rootfs, and of its deb-ostree.hk.
abbrev pub pulled_dir : Bytes → Bytes
pulled_dir work_dir = join_path work_dir (codes "rootfs-from-cloud")

abbrev pub origin_path : Bytes → Bytes
origin_path work_dir =
    join_path (join_path (join_path (pulled_dir work_dir) (codes "etc")) (codes "deb-ostree"))
      (codes "deb-ostree.hk")

unfoldable pub make_iso : Host → IsoOptions → Config → Flow (Unit {0})
make_iso h opts cfg =
    let skip = opts.skip_installer || not (use_builtin_installer cfg.project) in
    try_step (iso_build (pulled_dir opts.work_dir) opts.output_iso skip)
      (h.can_build_iso (pulled_dir opts.work_dir) opts.output_iso skip) iso_failed

unfoldable pub iso_steps : Host → IsoOptions → Config → Flow (Unit {0})
iso_steps h opts cfg =
    let repository = iso_repository h opts cfg in
    let tag = iso_tag opts cfg in
    try_step (image_pull repository tag (pulled_dir opts.work_dir))
      (h.can_pull repository tag (pulled_dir opts.work_dir)) pull_failed
    >>> λ u.
        (try_step
            (origin_write (origin_path opts.work_dir)
              (codes "deb-ostree-oci:" ++ (repository ++ b':' ∷ tag)))
            (h.can_write (origin_path opts.work_dir)) origin_failed
          >>> λ u'. make_iso h opts cfg)

unfoldable pub build_iso : Host → IsoOptions → Flow (Unit {0})
build_iso h opts =
    (if opts.skip_preflight then return tt else pass_check (check_iso h.look_path)) >>> λ u.
    (load_and_validate_config h opts.project_dir >>> λ cfg. iso_steps h opts cfg)

pub record AllOptions : Type 0 where
  pub project_dir : Bytes
  pub work_dir : Bytes
  pub output_iso : Bytes
  pub insecure_registry : Bool
  pub skip_installer : Bool

abbrev pub all_cloud_options : AllOptions → CloudOptions
all_cloud_options opts = record {
  project_dir = opts.project_dir;
  work_dir = opts.work_dir;
  insecure_registry = opts.insecure_registry;
  skip_preflight = true;
  skip_lock = true;
}

abbrev pub all_iso_options : AllOptions → CloudResult → IsoOptions
all_iso_options opts result = record {
  project_dir = opts.project_dir;
  work_dir = opts.work_dir;
  output_iso = opts.output_iso;
  repository = result.repository;
  tag = result.tag;
  insecure_registry = opts.insecure_registry;
  skip_preflight = true;
  skip_installer = opts.skip_installer;
}

unfoldable pub all_steps : Host → AllOptions → Flow (Unit {0})
all_steps h opts =
    build_cloud h (all_cloud_options opts) >>> λ result. build_iso h (all_iso_options opts result)

unfoldable pub build_all : Host → AllOptions → Flow (Unit {0})
build_all h opts =
    pass_check (check_all h.look_path) >>> λ u. with_lock h opts.work_dir (all_steps h opts)
