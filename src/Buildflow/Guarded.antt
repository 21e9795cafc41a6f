-- ===== src/Buildflow/Guarded.antt =====
-- The lock of the working directory around the steps of a flow.
use hacker_os_builder.Prelude.{
  Bool, true, false, Option, none, some, List, [], ◌∷◌, ◌++◌, if◌then◌else◌, Bytes, codes, equal,
  equal_refl, ◌≡◌, refl, arith, Bool-cases, inl, inr, ◌∙◌, ◌⊎◌,
}
use hacker_os_builder.Config.{Config, Loading, loaded, refused, crashed, requires_live_build}
use hacker_os_builder.Liveparse.{Parsed, got, broken, Project, parse_project}
use hacker_os_builder.Preflight.{MissingTools, check_cloud, check_iso, check_all}
use hacker_os_builder.Buildflow.{
  Host, Step, lock_acquired, lock_released, image_pull, FlowError, Outcome, done, failed, Flow,
  return, after, ◌>>>◌, require, pass_check, with_lock, config_flow, load_and_validate_config,
  project_flow, CloudOptions, run_live_build, push_image, deliver, cloud_steps, build_cloud,
  IsoOptions, make_iso, iso_steps, build_iso, AllOptions, all_cloud_options, all_iso_options,
  all_steps, build_all,
}

-- The lock of a directory: not taken yet, held, or given back.
pub data Phase : Type 0 where
  fresh held over : Phase

-- A reading of the steps that follows the lock of one directory: `none` where the lock is taken
-- for a second time, given back while it is not held, where another directory is locked, or where
-- a step of work is done without the lock; otherwise the phase at the end.
pub guarded : Bytes → Phase → List Step → Option Phase
guarded dir phase [] = some phase
guarded dir fresh (lock_acquired d ∷ steps) =
    let rest = guarded dir held steps in if equal d dir then rest else none
guarded dir held (lock_acquired d ∷ steps) = none
guarded dir over (lock_acquired d ∷ steps) = none
guarded dir held (lock_released d ∷ steps) =
    let rest = guarded dir over steps in if equal d dir then rest else none
guarded dir fresh (lock_released d ∷ steps) = none
guarded dir over (lock_released d ∷ steps) = none
guarded dir held (_ ∷ steps) = guarded dir held steps
guarded dir fresh (_ ∷ steps) = none
guarded dir over (_ ∷ steps) = none

guarded-append :
    (dir : Bytes) (phase later : Phase) (xs ys : List Step)
    → guarded dir phase xs ≡ some later
    → guarded dir phase (xs ++ ys) ≡ guarded dir later ys
unfolding guarded
guarded-append dir phase later [] ys h = let same : phase ≡ later = cc in rw same refl
guarded-append dir fresh later (lock_acquired d ∷ xs) ys h =
    ground (arith, guarded-append dir held later xs ys)
guarded-append dir held later (lock_acquired d ∷ xs) ys h = cc
guarded-append dir over later (lock_acquired d ∷ xs) ys h = cc
guarded-append dir held later (lock_released d ∷ xs) ys h =
    ground (arith, guarded-append dir over later xs ys)
guarded-append dir fresh later (lock_released d ∷ xs) ys h = cc
guarded-append dir over later (lock_released d ∷ xs) ys h = cc
guarded-append dir held later (_ ∷ xs) ys h = guarded-append dir held later xs ys h
guarded-append dir fresh later (_ ∷ xs) ys h = cc
guarded-append dir over later (_ ∷ xs) ys h = cc

-- A flow that works under the lock and neither takes nor gives it back.
record IsWork {ℓ} {V : Type ℓ} (dir : Bytes) (m : Flow V) : Type 0 where
  works : guarded dir held m.0 ≡ some held

abbrev worked {ℓ} :
    {V : Type ℓ} {dir : Bytes} {m : Flow V} → guarded dir held m.0 ≡ some held → IsWork dir m
worked h = record { works = h }

after-works {ℓ κ} :
    {V : Type ℓ} {W : Type κ} (dir : Bytes) (steps : List Step) (o : Outcome V) (f : V → Flow W)
    → guarded dir held steps ≡ some held
    → ((v : V) → IsWork dir (f v))
    → guarded dir held (after steps o f).0 ≡ some held
after-works dir steps (done v) f h k = guarded-append dir held held steps (f v).0 h ∙ (k v).works
after-works dir steps (failed e) f h k = h

bind-IsWork {ℓ κ} :
    {V : Type ℓ} {W : Type κ} (dir : Bytes) (m : Flow V) (f : V → Flow W)
    → IsWork dir m
    → ((v : V) → IsWork dir (f v))
    → IsWork dir (m >>> f)
unfolding ◌>>>◌
bind-IsWork dir m f h k = worked (after-works dir m.0 m.1 f h.works k)

config_flow-IsWork : (dir : Bytes) (r : Loading Config) → IsWork dir (config_flow r)
unfolding guarded
config_flow-IsWork dir (loaded cfg) = worked refl
config_flow-IsWork dir (refused e) = worked refl
config_flow-IsWork dir crashed = worked refl

config-IsWork : (h : Host) (dir p : Bytes) → IsWork dir (load_and_validate_config h p)
unfolding load_and_validate_config guarded
config-IsWork h dir p = config_flow-IsWork dir _

project_flow-IsWork : (dir : Bytes) (r : Parsed Project) → IsWork dir (project_flow r)
unfolding guarded
project_flow-IsWork dir (got p) = worked refl
project_flow-IsWork dir (broken e) = worked refl

require-IsWork : (dir : Bytes) (b : Bool) (e : FlowError) → IsWork dir (require b e)
unfolding guarded
require-IsWork dir true e = worked refl
require-IsWork dir false e = worked refl

run_live_build-IsWork : (h : Host) (dir p : Bytes) → IsWork dir (run_live_build h p)
unfolding run_live_build guarded
run_live_build-IsWork h dir p = bind-IsWork dir _ _ (worked refl) λ u. worked refl

push_image-IsWork :
    (h : Host) (dir work repository tag : Bytes) → IsWork dir (push_image h work repository tag)
unfolding push_image guarded
push_image-IsWork h dir work repository tag =
    bind-IsWork dir _ _ (require-IsWork dir _ _)
      λ u. bind-IsWork dir _ _ (worked refl) λ u'. worked refl

deliver-IsWork :
    (h : Host) (dir : Bytes) (opts : CloudOptions) (cfg : Config) → IsWork dir (deliver h opts cfg)
unfolding deliver guarded
deliver-IsWork h dir opts cfg = elim (Bool-cases (requires_live_build cfg.project)) [
  | inl live ↦ rw live (elim (Bool-cases (h.look_path (codes "lb"))) [
    | inl there ↦ rw there (run_live_build-IsWork h dir opts.project_dir)
    | inr missing ↦ rw missing (worked refl)
  ])
  | inr atomic ↦ rw atomic (push_image-IsWork h dir opts.work_dir _ _)
]

cloud_steps-IsWork :
    (h : Host) (dir : Bytes) (opts : CloudOptions) → IsWork dir (cloud_steps h opts)
unfolding cloud_steps guarded
cloud_steps-IsWork h dir opts =
    bind-IsWork dir (load_and_validate_config h opts.project_dir) _
      (config-IsWork h dir opts.project_dir)
      λ cfg.
        bind-IsWork dir (project_flow (parse_project (h.tree opts.project_dir))) _
          (project_flow-IsWork dir (parse_project (h.tree opts.project_dir)))
          λ project. bind-IsWork dir _ _ (worked refl) λ u. deliver-IsWork h dir opts cfg

iso_steps-IsWork :
    (h : Host) (dir : Bytes) (opts : IsoOptions) (cfg : Config) → IsWork dir (iso_steps h opts cfg)
unfolding iso_steps make_iso guarded
iso_steps-IsWork h dir opts cfg =
    bind-IsWork dir _ _ (worked refl) λ u. bind-IsWork dir _ _ (worked refl) λ u'. worked refl

all_steps-IsWork : (h : Host) (dir : Bytes) (opts : AllOptions) → IsWork dir (all_steps h opts)
unfolding all_steps build_cloud build_iso guarded
all_steps-IsWork h dir opts =
    bind-IsWork dir (build_cloud h (all_cloud_options opts)) _
      (bind-IsWork dir _ _ (worked refl) λ u. cloud_steps-IsWork h dir (all_cloud_options opts))
      λ result. bind-IsWork dir _ _ (worked refl) λ u.
        bind-IsWork dir (load_and_validate_config h opts.project_dir) _
          (config-IsWork h dir opts.project_dir)
          λ cfg. iso_steps-IsWork h dir (all_iso_options opts result) cfg

-- A flow that does all its work between taking the lock of the directory and giving it back, once,
-- or that does none and takes no lock.
abbrev pub IsGuarded {ℓ} : {V : Type ℓ} → Bytes → Flow V → Type 0
IsGuarded dir m = (m.0 ≡ []) ⊎ (guarded dir fresh m.0 ≡ some over)

with_lock-IsGuarded {ℓ} :
    {V : Type ℓ} (h : Host) (dir : Bytes) (body : Flow V)
    → IsWork dir body
    → IsGuarded dir (with_lock h dir body)
unfolding with_lock guarded
with_lock-IsGuarded h dir body k = elim (Bool-cases (h.lock_free dir)) [
  | inr busy ↦ rw busy (inl refl)
  | inl free ↦ rw free (
      inr (
        rw (equal_refl dir) (
          guarded-append dir held held body.0 (lock_released dir ∷ []) k.works
          ∙ ground (arith, equal_refl dir))))
]

checked-IsGuarded {ℓ} :
    {V : Type ℓ} (dir : Bytes) (r : Option MissingTools) (f : Unit {0} → Flow V)
    → ((u : Unit {0}) → IsGuarded dir (f u))
    → IsGuarded dir (pass_check r >>> f)
unfolding guarded ◌>>>◌
checked-IsGuarded dir none f k = k tt
checked-IsGuarded dir (some missing) f k = inl refl

-- Whatever fails, BuildAll takes the lock of its working directory once, does every step of
-- BuildCloud and BuildIso while it is held, and gives it back once, or it does no step at all.
pub build_all-IsGuarded :
    (h : Host) (opts : AllOptions) → IsGuarded opts.work_dir (build_all h opts)
unfolding build_all
build_all-IsGuarded h opts = checked-IsGuarded opts.work_dir (check_all h.look_path) _ λ u.
    with_lock-IsGuarded h opts.work_dir (all_steps h opts) (all_steps-IsWork h opts.work_dir opts)

preflight-IsGuarded {ℓ} :
    {V : Type ℓ} (dir : Bytes) (skip : Bool) (r : Option MissingTools) (body : Flow V)
    → IsGuarded dir body
    → IsGuarded dir ((if skip then return tt else pass_check r) >>> λ u. body)
unfolding ◌>>>◌
preflight-IsGuarded dir true r body k = k
preflight-IsGuarded dir false r body k = checked-IsGuarded dir r (λ u. body) λ u. k

locking-IsGuarded {ℓ} :
    {V : Type ℓ} (dir : Bytes) (skip : Bool) (bare locked : Flow V)
    → skip ≡ false
    → IsGuarded dir locked
    → IsGuarded dir (if skip then bare else locked)
locking-IsGuarded dir true bare locked e k = cc
locking-IsGuarded dir false bare locked e k = k

-- Whatever fails, BuildCloud on its own, unless it is told to skip the lock, takes the lock of its
-- working directory once, does every step while it is held, and gives it back once, or it does no
-- step at all.
pub build_cloud-IsGuarded :
    (h : Host) (opts : CloudOptions)
    → opts.skip_lock ≡ false
    → IsGuarded opts.work_dir (build_cloud h opts)
unfolding build_cloud
build_cloud-IsGuarded h opts locks =
    preflight-IsGuarded opts.work_dir opts.skip_preflight (check_cloud h.look_path) _ (
      locking-IsGuarded opts.work_dir opts.skip_lock (cloud_steps h opts)
        (with_lock h opts.work_dir (cloud_steps h opts)) locks
        (with_lock-IsGuarded h opts.work_dir (cloud_steps h opts)
          (cloud_steps-IsWork h opts.work_dir opts)))

pull_unguarded {ℓ} :
    {V : Type ℓ} (dir repository tag dest : Bytes) (o : Outcome (Unit {0})) (f : Unit {0} → Flow V)
    → guarded dir fresh (after (image_pull repository tag dest ∷ []) o f).0 ≡ none
unfolding guarded
pull_unguarded dir repository tag dest (done u) f = refl
pull_unguarded dir repository tag dest (failed e) f = refl

iso_steps_unguarded :
    (h : Host) (opts : IsoOptions) (cfg : Config)
    → guarded opts.work_dir fresh (iso_steps h opts cfg).0 ≡ none
unfolding iso_steps ◌>>>◌
iso_steps_unguarded h opts cfg = pull_unguarded opts.work_dir _ _ _ _ _

loaded_unguarded :
    (dir : Bytes) (m : Flow Config) (f : Config → Flow (Unit {0})) (cfg : Config)
    → m ≡ return cfg
    → guarded dir fresh (f cfg).0 ≡ none
    → guarded dir fresh (m >>> f).0 ≡ none
unfolding ◌>>>◌
loaded_unguarded dir m f cfg e k = rw e k

skipped_unguarded :
    (dir : Bytes) (skip : Bool) (r : Option MissingTools) (body : Flow (Unit {0}))
    → skip ≡ true
    → guarded dir fresh body.0 ≡ none
    → guarded dir fresh ((if skip then return tt else pass_check r) >>> λ u. body).0 ≡ none
unfolding ◌>>>◌
skipped_unguarded dir true r body e k = k
skipped_unguarded dir false r body e k = cc

-- BuildIso takes no lock: where its checks are skipped and its configuration is loaded, it works
-- in the directory while no lock is held.
pub build_iso_unguarded :
    (h : Host) (opts : IsoOptions) (cfg : Config)
    → opts.skip_preflight ≡ true
    → load_and_validate_config h opts.project_dir ≡ return cfg
    → guarded opts.work_dir fresh (build_iso h opts).0 ≡ none
unfolding build_iso
build_iso_unguarded h opts cfg skip config =
    skipped_unguarded opts.work_dir opts.skip_preflight (check_iso h.look_path) _ skip (
      loaded_unguarded opts.work_dir (load_and_validate_config h opts.project_dir)
        (iso_steps h opts) cfg config (iso_steps_unguarded h opts cfg))
