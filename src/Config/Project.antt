-- ===== src/Config/Project.antt =====
-- The outcomes of loadProjectSection of internal/config/config.go.
use hacker_os_builder.Prelude.{
  Bool, true, false, Option, none, some, [], ◌∷◌, if◌then◌else◌, Bytes, codes, equal, mem, ◌≢◌,
  Option-cases, inl, inr,
}
use hacker_os_builder.Hk.OrderedMap.{get}
use hacker_os_builder.Hk.Value.{Floats, HkValue}
use hacker_os_builder.Hk.Store.{HkConfig}
use hacker_os_builder.Text.Search.{to_lower}
use hacker_os_builder.Config.{
  ProjectType, project_default, project_cybersecurity, project_normal, project_official,
  project_independent, InstallerType, installer_default, installer_cybersecurity, installer_none,
  ProjectConfig, parse_project_type, parse_installer_type, optional_text, project_type_of,
  installer_of, project_of, load_project_section,
}
use hacker_os_builder.Config.Cases.{Gives, bind-Gives, section-cases}

-- The kinds that Load writes for "cybersecurity" are the default ones.
pub record IsPlainProject (p : ProjectConfig) : Type 0 where
  pub kind : p.project_type ≢ project_cybersecurity
  pub installer_kind : p.installer ≢ installer_cybersecurity

abbrev AreTypes : Option ProjectType → Type 0
AreTypes none = Unit
AreTypes (some t) = t ≢ project_cybersecurity

AreTypes-choice :
    (b c d e : Bool)
    → AreTypes (
        if b
        then some project_default
        else if c
        then some project_normal
        else if d
        then some project_official
        else if e
        then some project_independent
        else none)
AreTypes-choice true c d e = λ p. cc
AreTypes-choice false true d e = λ p. cc
AreTypes-choice false false true e = λ p. cc
AreTypes-choice false false false true = λ p. cc
AreTypes-choice false false false false = tt

parse_project_type-AreTypes : (s : Bytes) → AreTypes (parse_project_type s)
unfolding parse_project_type
parse_project_type-AreTypes s =
    AreTypes-choice (mem (to_lower s) ([] ∷ codes "default" ∷ codes "cybersecurity" ∷ []))
      (equal (to_lower s) (codes "normal")) (equal (to_lower s) (codes "official"))
      (equal (to_lower s) (codes "independent"))

project_type_of-Gives :
    (o : Option Bytes) → Gives (λ t. t ≢ project_cybersecurity) (project_type_of o)
unfolding project_type_of
project_type_of-Gives none = λ e. cc
project_type_of-Gives (some s) =
    let typed = parse_project_type-AreTypes s in
    elim (Option-cases (parse_project_type s)) [
      | inl unknown ↦ rw (unknown, project_type_of) tt
      | inr (t, known) ↦ rw (known, project_type_of) (rw known at typed)
    ]

abbrev AreInstallers : Option InstallerType → Type 0
AreInstallers none = Unit
AreInstallers (some t) = t ≢ installer_cybersecurity

AreInstallers-choice :
    (b c : Bool)
    → AreInstallers (if b then some installer_default else if c then some installer_none else none)
AreInstallers-choice true c = λ p. cc
AreInstallers-choice false true = λ p. cc
AreInstallers-choice false false = tt

parse_installer_type-AreInstallers : (s : Bytes) → AreInstallers (parse_installer_type s)
unfolding parse_installer_type
parse_installer_type-AreInstallers s =
    AreInstallers-choice (mem (to_lower s) ([] ∷ codes "default" ∷ codes "cybersecurity" ∷ []))
      (equal (to_lower s) (codes "none"))

installer_of-Gives : (o : Option Bytes) → Gives (λ t. t ≢ installer_cybersecurity) (installer_of o)
unfolding installer_of
installer_of-Gives none = λ e. cc
installer_of-Gives (some s) =
    let typed = parse_installer_type-AreInstallers s in
    elim (Option-cases (parse_installer_type s)) [
      | inl unknown ↦ rw (unknown, installer_of) tt
      | inr (t, known) ↦ rw (known, installer_of) (rw known at typed)
    ]

project_of-Gives :
    (fl : Floats) (at : Bytes → Option HkValue) → Gives IsPlainProject (project_of fl at)
unfolding project_of
project_of-Gives fl at =
    bind-Gives (λ t. t ≢ project_cybersecurity) IsPlainProject
      (project_type_of (optional_text fl (at (codes "type")))) _
      (project_type_of-Gives (optional_text fl (at (codes "type"))))
      λ t ht.
        bind-Gives (λ i. i ≢ installer_cybersecurity) IsPlainProject
          (installer_of (optional_text fl (at (codes "installer")))) _
          (installer_of-Gives (optional_text fl (at (codes "installer"))))
          λ i hi. record { kind = ht; installer_kind = hi }

pub load_project_section-Gives :
    (fl : Floats) (c : HkConfig) → Gives IsPlainProject (load_project_section fl c)
unfolding load_project_section
load_project_section-Gives fl c = elim (section-cases c (codes "project")) [
  | inl (m, there) ↦ rw (there, load_project_section) (project_of-Gives fl (get (c.store.cell m)))
  | inr (e, absent) ↦
      rw (absent, load_project_section) (record { kind = λ e. cc; installer_kind = λ e. cc })
]
