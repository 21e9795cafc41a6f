-- ===== src/Config/Laws.antt =====
-- The configurations that Load of internal/config/config.go returns, and its outcomes.
use hacker_os_builder.Prelude.{[], codes, ◌≡◌, ◌≢◌, ◌⊎◌}
use hacker_os_builder.Config.{Config}
use hacker_os_builder.Config.Project.{IsPlainProject}

-- The fields that Load checks.
pub record IsChecked (c : Config) : Type 0 where
  pub account : (c.account_type ≡ codes "user") ⊎ (c.account_type ≡ codes "organisation")
  pub named : c.account_name ≢ []
  pub authorized : c.token ≢ []
  pub released : c.release ≢ []

-- What Load returns: the checked fields, and a project of a plain kind.
abbrev pub IsLoaded : Config → Type 0
IsLoaded cfg = IsChecked cfg × IsPlainProject cfg.project
