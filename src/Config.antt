-- ===== src/Config.antt =====
-- internal/config/config.go: the project file config/config.hk, loaded and checked.
pub mod Cases
pub mod Project
pub mod Laws
use hacker_os_builder.Prelude.{
  ℕ, ◌+◌, Bool, true, false, not, ◌&&◌, ◌||◌, Option, none, some, List, [], ◌∷◌, ◌++◌, leb,
  if◌then◌else◌, Bytes, codes, equal, mem,
}
use hacker_os_builder.Text.Search.{to_lower}
use hacker_os_builder.Text.Space.{trim_space}
use hacker_os_builder.Hk.Errors.{Error, Result, ok, err, panic}
use hacker_os_builder.Hk.OrderedMap.{get}
use hacker_os_builder.Hk.Value.{Floats, HkValue, as_string}
use hacker_os_builder.Hk.Store.{HkConfig}
use hacker_os_builder.Hk.Config.{section}
use hacker_os_builder.Hk.Load.{LoadFile, not_opened, not_read, parsed, load_file}
use hacker_os_builder.Hk.Interpolate.{Surroundings, resolve_interpolations}

pub data ProjectType : Type 0 where
  project_default project_cybersecurity project_normal project_official project_independent :
      ProjectType

pub data InstallerType : Type 0 where
  installer_default installer_cybersecurity installer_none : InstallerType

pub data MacSystem : Type 0 where
  app_armor se_linux : MacSystem

pub record ProjectConfig : Type 0 where
  pub name : Bytes
  pub tag : Bytes
  pub project_type : ProjectType
  pub installer : InstallerType
  pub mac : MacSystem

-- `AccountType` is a string type of Go.
pub record Config : Type 0 where
  pub account_type : Bytes
  pub account_name : Bytes
  pub token : Bytes
  pub release : Bytes
  pub project : ProjectConfig

pub data ConfigError : Type 0 where
  file_not_opened file_not_read : ConfigError
  not_parsed : Error → ConfigError
  not_resolved : Error → ConfigError
  section_missing : Bytes → Bytes → ConfigError
  key_missing : Bytes → Bytes → ConfigError
  not_a_text : Bytes → Bytes → Error → ConfigError
  wrong_account_type : Bytes → ConfigError
  empty_account_name empty_token empty_release : ConfigError
  unknown_project_type : Bytes → ConfigError
  unknown_installer : Bytes → ConfigError

pub data Loading {ℓ} (V : Type ℓ) : Type ℓ where
  loaded : V → Loading V
  refused : ConfigError → Loading V
  crashed : Loading V

infixl 5 ◌>>-◌
abbrev pub ◌>>-◌ {ℓ κ} : {V : Type ℓ} {W : Type κ} → Loading V → (V → Loading W) → Loading W
loaded v >>- f = f v
refused e >>- f = refused e
crashed >>- f = crashed

-- A result of internal/hk, its error wrapped.
abbrev pub wrapped {ℓ} : {V : Type ℓ} → (Error → ConfigError) → Result V → Loading V
wrapped w (ok v) = loaded v
wrapped w (err e) = refused (w e)
wrapped w panic = crashed

unfoldable pub is_atomic_build : ProjectConfig → Bool
is_atomic_build p = elim p.project_type [
  | project_normal ↦ false
  | project_official ↦ false
  | project_independent ↦ false
  | _ ↦ true
]

unfoldable pub requires_live_build : ProjectConfig → Bool
requires_live_build p = elim p.project_type [
  | project_normal ↦ true
  | project_official ↦ true
  | _ ↦ false
]

unfoldable pub use_builtin_installer : ProjectConfig → Bool
use_builtin_installer p = elim p.installer [ installer_none ↦ false | _ ↦ true ]

unfoldable pub image_tag : ProjectConfig → Bytes
unfolding equal
image_tag p = if equal p.tag [] then codes "latest" else p.tag

abbrev pub default_project_config : ProjectConfig
default_project_config = record {
  name = [];
  tag = [];
  project_type = project_default;
  installer = installer_default;
  mac = app_armor;
}

-- `none` is the error.
unfoldable pub parse_project_type : Bytes → Option ProjectType
unfolding to_lower equal mem
parse_project_type s =
    let lower = to_lower s in
    if mem lower ([] ∷ codes "default" ∷ codes "cybersecurity" ∷ [])
    then some project_default
    else if equal lower (codes "normal")
    then some project_normal
    else if equal lower (codes "official")
    then some project_official
    else if equal lower (codes "independent")
    then some project_independent
    else none

unfoldable pub parse_installer_type : Bytes → Option InstallerType
unfolding to_lower equal mem
parse_installer_type s =
    let lower = to_lower s in
    if mem lower ([] ∷ codes "default" ∷ codes "cybersecurity" ∷ [])
    then some installer_default
    else if equal lower (codes "none")
    then some installer_none
    else none

unfoldable pub is_truthy : Bytes → Bool
unfolding to_lower mem
is_truthy s = mem (to_lower s) (codes "true" ∷ codes "yes" ∷ codes "1" ∷ codes "on" ∷ [])

-- A value that is there and has a text, trimmed.
unfoldable pub optional_text : Floats → Option HkValue → Option Bytes
optional_text fl none = none
optional_text fl (some v) = elim (as_string fl v) [ ok s ↦ some (trim_space s) | _ ↦ none ]

abbrev pub text_or : Bytes → Option Bytes → Bytes
text_or d none = d
text_or d (some s) = s

unfoldable pub project_type_of : Option Bytes → Loading ProjectType
project_type_of none = loaded project_default
project_type_of (some s) = elim (parse_project_type s) [
  | none ↦ refused (unknown_project_type s)
  | some t ↦ loaded t
]

unfoldable pub installer_of : Option Bytes → Loading InstallerType
installer_of none = loaded installer_default
installer_of (some s) = elim (parse_installer_type s) [
  | none ↦ refused (unknown_installer s)
  | some t ↦ loaded t
]

unfoldable pub mac_of : Option Bytes → MacSystem
mac_of none = app_armor
mac_of (some s) = if is_truthy s then se_linux else app_armor

-- The body of loadProjectSection, where `at` reads a key of the section.
unfoldable pub project_of : Floats → (Bytes → Option HkValue) → Loading ProjectConfig
project_of fl at = project_type_of (optional_text fl (at (codes "type"))) >>- λ t.
    (installer_of (optional_text fl (at (codes "installer"))) >>- λ i. loaded (record {
      name = text_or [] (optional_text fl (at (codes "name")));
      tag = text_or [] (optional_text fl (at (codes "tag")));
      project_type = t;
      installer = i;
      mac = mac_of (optional_text fl (at (codes "selinux")));
    }))

unfoldable pub load_project_section : Floats → HkConfig → Loading ProjectConfig
load_project_section fl c = elim (section c (codes "project")) [
  | ok m ↦ project_of fl (get (c.store.cell m))
  | err e ↦ loaded default_project_config
  | panic ↦ crashed
]

unfoldable pub required_value : Floats → Bytes → Bytes → Option HkValue → Loading Bytes
required_value fl name key none = refused (key_missing name key)
required_value fl name key (some v) = wrapped (not_a_text name key) (as_string fl v)

unfoldable pub get_required_string : Floats → HkConfig → Bytes → Bytes → Loading Bytes
unfolding required_value
get_required_string fl c name key = elim (section c name) [
  | ok m ↦ required_value fl name key (get (c.store.cell m) key)
  | err e ↦ refused (section_missing name key)
  | panic ↦ crashed
]

unfoldable pub validate : Config → Loading Config
unfolding equal
validate cfg =
    if not (equal cfg.account_type (codes "user") || equal cfg.account_type (codes "organisation"))
    then refused (wrong_account_type cfg.account_type)
    else if equal cfg.account_name []
    then refused empty_account_name
    else if equal cfg.token []
    then refused empty_token
    else if equal cfg.release []
    then refused empty_release
    else loaded cfg

-- The fields of Load, in the order in which it reads them; `project` is set behind them.
unfoldable pub load_fields : Floats → HkConfig → Loading Config
load_fields fl c = get_required_string fl c (codes "account") (codes "type") >>- λ account_type.
    (get_required_string fl c (codes "account") (codes "name") >>- λ account_name.
    (get_required_string fl c (codes "auth") (codes "token") >>- λ token.
    (get_required_string fl c (codes "release") (codes "name") >>- λ release. loaded (record {
      account_type = account_type;
      account_name = account_name;
      token = token;
      release = release;
      project = default_project_config;
    }))))

unfoldable pub load_parsed : Surroundings → LoadFile HkConfig → Loading HkConfig
load_parsed env not_opened = refused file_not_opened
load_parsed env not_read = refused file_not_read
load_parsed env (parsed r) =
    wrapped not_parsed r >>- λ c. wrapped not_resolved (resolve_interpolations env c)

unfoldable pub load : Surroundings → Option Bytes → Loading Config
load env contents = load_parsed env (load_file env.floats contents) >>- λ c.
    (load_fields env.floats c >>- λ fields.
    (validate fields >>- λ cfg.
    (load_project_section env.floats c >>- λ p. loaded (record cfg { project = p }))))

-- `knownReleases`
abbrev pub known_releases : List Bytes
known_releases =
    codes "bookworm" ∷ codes "trixie" ∷ codes "forky" ∷ codes "sid" ∷ codes "unstable" ∷ []

unfoldable pub is_known_release : Config → Bool
unfolding mem
is_known_release cfg = mem cfg.release known_releases

unfoldable pub ascii_lower : Bytes → Bytes
ascii_lower [] = []
ascii_lower (c ∷ s) = (if leb b'A' c && leb c b'Z' then c + 32 else c) ∷ ascii_lower s

unfoldable pub image_repository : Config → Bytes → Bytes → Bytes
unfolding ascii_lower
image_repository cfg registry_host image_name =
    registry_host ++ (b'/' ∷ (ascii_lower cfg.account_name ++ (b'/' ∷ image_name)))
