-- ===== src/Cli/Arguments.antt =====
-- What the loop over the arguments and the choice of a command do.
use hacker_os_builder.Prelude.{
  false, List, [], ◌∷◌, ◌++◌, Bytes, codes, equal, equal_iff, mem, ◌≡◌, ◌≢◌, refl, Bool-cases, inl,
  inr, ◌∙◌, ap, sym, All, append_assoc, append-nil,
}
use hacker_os_builder.Cli.{
  Options, read, takes_value, set_flag, parse_args, help_flags, version_flags, verbose_flags,
  request,
}

-- The arguments that are no option and no request for help.
pub record IsPositional (a : Bytes) : Type 0 where
  pub no_value : takes_value a ≡ false
  pub no_help : mem a help_flags ≡ false
  pub no_version : mem a version_flags ≡ false
  pub no_verbose : mem a verbose_flags ≡ false
  pub no_insecure : equal a (codes "--insecure-registry") ≡ false
  pub no_skip : equal a (codes "--skip-preflight") ≡ false
  pub no_installer : equal a (codes "--no-installer") ≡ false
  pub no_all : equal a (codes "--all") ≡ false

abbrev pub collect : Options → List Bytes → Options
collect o names = record o { positional = o.positional ++ names }

set_flag-collect : (o : Options) (a : Bytes) → IsPositional a → set_flag o a ≡ collect o (a ∷ [])
unfolding set_flag
set_flag-collect o a h =
    rw h.no_verbose (rw h.no_insecure (rw h.no_skip (rw h.no_installer (rw h.no_all refl))))

parse_args_step :
    (o : Options) (a : Bytes) (args : List Bytes)
    → IsPositional a
    → parse_args o (a ∷ args) ≡ parse_args (collect o (a ∷ [])) args
unfolding parse_args
parse_args_step o a [] h =
    rw h.no_value (rw h.no_help (rw h.no_version (ap read (set_flag-collect o a h))))
parse_args_step o a (b ∷ args) h =
    rw h.no_value
      (rw h.no_help (rw h.no_version (ap (λ p. parse_args p (b ∷ args)) (set_flag-collect o a h))))

-- Positional arguments are collected in order, wherever they stand before the other arguments.
pub parse_args-collect :
    (o : Options) (names args : List Bytes)
    → All IsPositional names
    → parse_args o (names ++ args) ≡ parse_args (collect o names) args
parse_args-collect o [] args h =
    ap (λ ps. parse_args (record o { positional = ps }) args) (sym (append-nil o.positional))
parse_args-collect o (a ∷ names) args h =
    parse_args_step o a (names ++ args) h.0
    ∙ parse_args-collect (collect o (a ∷ [])) names args h.1
    ∙ ap (λ ps. parse_args (record o { positional = ps }) args)
        (append_assoc o.positional (a ∷ []) names)

-- "build c" and "c" ask for the same, for every c but "clean".
pub request_build :
    (c : Bytes) → c ≢ codes "clean" → request (codes "build" ∷ c ∷ []) ≡ request (c ∷ [])
unfolding request
request_build c ne = elim (Bool-cases (equal c (codes "clean"))) [
  | inl same ↦ absurd (ne ((equal_iff c (codes "clean")).0 same))
  | inr other ↦ rw other refl
]
