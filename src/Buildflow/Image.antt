-- ===== src/Buildflow/Image.antt =====
-- Which image BuildCloud pushes, and which one BuildIso pulls.
use hacker_os_builder.Prelude.{
  Bool, true, false, List, [], ◌∷◌, Bytes, codes, equal, is_empty, ◌≡◌, refl, Bool-cases, inl, inr,
  ap, sym,
}
use hacker_os_builder.Config.{
  ProjectConfig, Config, requires_live_build, image_tag, image_repository,
}
use hacker_os_builder.Liveparse.{join_path}
use hacker_os_builder.Buildflow.{
  Host, Step, image_push, dir_failed, push_failed, done, return, ◌>>>◌, try_step, require,
  default_registry_host, image_name_of, CloudOptions, CloudResult, push_image, deliver, IsoOptions,
  iso_repository, iso_tag, AllOptions, all_cloud_options, all_iso_options,
}

image_repository_some :
    (cfg : Config) (name : Bytes)
    → is_empty (image_repository cfg default_registry_host name) ≡ false
unfolding image_repository
image_repository_some cfg name = refl

some-tag : (t : Bytes) → equal t [] ≡ false → is_empty t ≡ false
unfolding equal
some-tag [] e = cc
some-tag (c ∷ t) e = refl

image_tag_some : (p : ProjectConfig) → is_empty (image_tag p) ≡ false
unfolding image_tag
image_tag_some p = elim (Bool-cases (equal p.tag [])) [
  | inl empty ↦ rw empty refl
  | inr set ↦ rw set (some-tag p.tag set)
]

push_steps :
    (made pushed : Bool) (repository tag dir : Bytes) (answer : CloudResult) (steps : List Step)
    (result : CloudResult)
    → (require made dir_failed >>> λ u.
        (try_step (image_push repository tag dir) pushed push_failed >>> λ u'. return answer))
      ≡ (steps, done result)
    → (steps ≡ image_push repository tag dir ∷ []) × (result ≡ answer)
unfolding ◌>>>◌
push_steps false pushed repository tag dir answer steps result e = (cc, cc)
push_steps true false repository tag dir answer steps result e = (cc, cc)
push_steps true true repository tag dir answer steps result e = (cc, cc)

-- The repository and the tag that BuildCloud makes of the configuration.
abbrev pub cloud_repository : Host → Bytes → Config → Bytes
cloud_repository h project_dir cfg =
    image_repository cfg default_registry_host (image_name_of h project_dir cfg)

deliver_pushed :
    (h : Host) (opts : CloudOptions) (cfg : Config) (steps : List Step) (result : CloudResult)
    → requires_live_build cfg.project ≡ false
    → deliver h opts cfg ≡ (steps, done result)
    → (steps
        ≡ image_push
            (cloud_repository h opts.project_dir cfg)
            (image_tag cfg.project)
            (join_path opts.work_dir (codes "rootfs"))
          ∷ [])
      × (result.repository ≡ cloud_repository h opts.project_dir cfg)
      × (result.tag ≡ image_tag cfg.project)
unfolding deliver push_image
deliver_pushed h opts cfg steps result packed e =
    let (taken, answer) = push_steps _ _ _ _ _ _ steps result (rw packed at e) in
    (taken, ap (λ r. r.repository) answer, ap (λ r. r.tag) answer)

-- BuildAll hands the image of BuildCloud to BuildIso: where a project that is not left to
-- live-build is delivered, exactly one image is pushed, and it is the one that BuildIso pulls,
-- whatever configuration it loads.
pub deliver-iso_repository :
    (h : Host) (opts : AllOptions) (cfg : Config) (steps : List Step) (result : CloudResult)
    → requires_live_build cfg.project ≡ false
    → deliver h (all_cloud_options opts) cfg ≡ (steps, done result)
    → (cfg' : Config)
    → steps
      ≡ image_push
          (iso_repository h (all_iso_options opts result) cfg')
          (iso_tag (all_iso_options opts result) cfg')
          (join_path opts.work_dir (codes "rootfs"))
        ∷ []
unfolding iso_repository iso_tag
deliver-iso_repository h opts cfg steps result packed e cfg' =
    let (taken, repository, tag) =
      deliver_pushed h (all_cloud_options opts) cfg steps result packed e in
    rw repository (
      rw tag (
        rw (image_repository_some cfg (image_name_of h opts.project_dir cfg))
          (rw (image_tag_some cfg.project) taken)))

-- On its own, BuildIso pulls the image that BuildCloud pushes for the same project where the
-- project has no name of its own and its tag is the name of the release.
pub iso_cloud_same :
    (h : Host) (opts : IsoOptions) (cfg : Config)
    → opts.repository ≡ []
    → opts.tag ≡ []
    → cfg.project.name ≡ []
    → image_tag cfg.project ≡ cfg.release
    → (iso_repository h opts cfg ≡ cloud_repository h opts.project_dir cfg)
      × (iso_tag opts cfg ≡ image_tag cfg.project)
unfolding iso_repository iso_tag image_name_of
iso_cloud_same h opts cfg repository tag name same =
    (rw repository (rw name refl), rw tag (sym same))
