-- ===== src/Cli.antt =====
-- main.go: the command line, and the flow that it starts.
pub mod Arguments
pub mod Clean
use hacker_os_builder.Prelude.{
  ℕ, Bool, true, false, not, ◌&&◌, ◌||◌, Option, none, some, List, [], ◌∷◌, ◌++◌, if◌then◌else◌,
  Bytes, codes, equal, mem, length, is_some,
}
use hacker_os_builder.Liveparse.{join_path}
use hacker_os_builder.Buildflow.{
  Host, FlowError, Outcome, done, failed, Flow, CloudResult, build_cloud, build_iso, build_all,
}

-- The variables that the loop over the arguments sets.
pub record Options : Type 0 where
  pub verbose : Bool
  pub project_dir : Bytes
  pub work_dir : Bytes
  pub output_iso : Bytes
  pub insecure_registry : Bool
  pub skip_preflight : Bool
  pub no_installer : Bool
  pub clean_all : Bool
  pub positional : List Bytes

abbrev pub default_options : Options
default_options = record {
  verbose = false;
  project_dir = codes ".";
  work_dir = codes "./hackeros-build-work";
  output_iso = codes "./output.iso";
  insecure_registry = false;
  skip_preflight = false;
  no_installer = false;
  clean_all = false;
  positional = [];
}

-- How the loop ends: with the options, or with an exit.
pub data Reading : Type 0 where
  read : Options → Reading
  value_missing : Bytes → Reading
  usage version : Reading

abbrev pub project_flags : List Bytes
project_flags = codes "-p" ∷ codes "--project" ∷ []

abbrev pub workdir_flags : List Bytes
workdir_flags = codes "-w" ∷ codes "--workdir" ∷ []

abbrev pub output_flags : List Bytes
output_flags = codes "-o" ∷ codes "--output" ∷ []

abbrev pub verbose_flags : List Bytes
verbose_flags = codes "-v" ∷ codes "--verbose" ∷ []

abbrev pub help_flags : List Bytes
help_flags = codes "-h" ∷ codes "--help" ∷ codes "help" ∷ []

abbrev pub version_flags : List Bytes
version_flags = codes "-V" ∷ codes "--version" ∷ []

unfoldable pub takes_value : Bytes → Bool
unfolding mem
takes_value a = mem a project_flags || mem a workdir_flags || mem a output_flags

-- A flag with its value.
unfoldable pub set_value : Options → Bytes → Bytes → Options
unfolding mem
set_value o a value =
    if mem a project_flags
    then record o { project_dir = value }
    else if mem a workdir_flags
    then record o { work_dir = value }
    else record o { output_iso = value }

-- A flag with no value, or a positional argument.
unfoldable pub set_flag : Options → Bytes → Options
unfolding mem equal
set_flag o a =
    if mem a verbose_flags
    then record o { verbose = true }
    else if equal a (codes "--insecure-registry")
    then record o { insecure_registry = true }
    else if equal a (codes "--skip-preflight")
    then record o { skip_preflight = true }
    else if equal a (codes "--no-installer")
    then record o { no_installer = true }
    else if equal a (codes "--all")
    then record o { clean_all = true }
    else record o { positional = o.positional ++ a ∷ [] }

-- The loop over os.Args[1:].
unfoldable pub parse_args : Options → List Bytes → Reading
unfolding takes_value set_value set_flag mem
parse_args o [] = read o
parse_args o (a ∷ []) =
    if takes_value a
    then value_missing a
    else if mem a help_flags
    then usage
    else if mem a version_flags
    then version
    else read (set_flag o a)
parse_args o (a ∷ b ∷ args) =
    let behind = parse_args (set_value o a b) args in
    let next = parse_args (set_flag o a) (b ∷ args) in
    if takes_value a
    then behind
    else if mem a help_flags
    then usage
    else if mem a version_flags
    then version
    else next

-- What the positional arguments ask for.
pub data Request : Type 0 where
  clean : Request
  subcommand : Bytes → Request
  show_usage : Request
  wrong_count : ℕ → Request
  unknown : Bytes → Request

-- `validSubcommands`
abbrev pub valid_subcommands : List Bytes
valid_subcommands = codes "cloud" ∷ codes "iso" ∷ codes "all" ∷ []

unfoldable pub is_valid_subcommand : Bytes → Bool
unfolding mem
is_valid_subcommand s = mem s valid_subcommands

abbrev pub checked : Bytes → Request
checked s = if is_valid_subcommand s then subcommand s else unknown s

unfoldable pub request : List Bytes → Request
unfolding equal
request [] = show_usage
request (s ∷ []) = if equal s (codes "clean") then clean else checked s
request (s ∷ t ∷ []) = if equal s (codes "build") then checked t else wrong_count 2
request (s ∷ t ∷ u ∷ args) = wrong_count (length (s ∷ t ∷ u ∷ args))

-- How the program ends behind a subcommand.
pub data Ending : Type 0 where
  no_path : Ending
  no_config : Bytes → Ending
  not_root : Ending
  cloud_ending : Flow CloudResult → Ending
  iso_ending all_ending : Flow (Unit {0}) → Ending

-- The dispatch to the flows, with absolute paths. The flow of "all" has no option for the check.
unfoldable pub dispatch : Host → Options → Bytes → Bytes → Bytes → Bytes → Ending
unfolding equal
dispatch h o command project work output =
    if equal command (codes "cloud")
    then cloud_ending (
        build_cloud h (record {
          project_dir = project;
          work_dir = work;
          insecure_registry = o.insecure_registry;
          skip_preflight = o.skip_preflight;
          skip_lock = false;
        }))
    else if equal command (codes "iso")
    then iso_ending (
        build_iso h (record {
          project_dir = project;
          work_dir = work;
          output_iso = output;
          repository = [];
          tag = [];
          insecure_registry = o.insecure_registry;
          skip_preflight = o.skip_preflight;
          skip_installer = o.no_installer;
        }))
    else all_ending (
        build_all h (record {
          project_dir = project;
          work_dir = work;
          output_iso = output;
          insecure_registry = o.insecure_registry;
          skip_installer = o.no_installer;
        }))

-- `root` tells whether the effective user is root; a file that os.Stat finds can be read.
unfoldable pub start_in : Host → Bool → Options → Bytes → Bytes → Bytes → Bytes → Ending
start_in h root o command project work output =
    let config_path = join_path (join_path project (codes "config")) (codes "config.hk") in
    if not (is_some (h.config_file config_path))
    then no_config config_path
    else if not root
    then not_root
    else dispatch h o command project work output

unfoldable pub start : Host → Bool → Options → Bytes → Ending
start h root o command = elim (h.abs o.project_dir) [
  | none ↦ no_path
  | some project ↦ elim (h.abs o.work_dir) [
    | none ↦ no_path
    | some work ↦ elim (h.abs o.output_iso) [
      | none ↦ no_path
      | some output ↦ start_in h root o command project work output
    ]
  ]
]
