-- ===== src/Config.antt =====
-- src/hermes_auto/config.py: the configuration records, the credential reference and the migration.
pub mod Yaml
pub mod Checks
pub mod Build
pub mod Load
pub mod Candidates
pub mod Loading
pub mod Ports
use hermes_auto.Prelude.{
  ℕ, String, Bool, true, Option, none, some, List, [], ◌∷◌, ◌==◌, if◌then◌else◌,
}
use hermes_auto.Text.{partition}

-- `context_window` is positive: `_build_candidates` refuses any other.
pub record CandidateConfig : Type 0 where
  pub id : String
  pub provider : String
  pub model : String
  pub base_url : String
  pub credential_ref : String
  pub tier : String
  pub context_window : ℕ
  pub supports_tools : Bool
  pub supports_vision : Bool

pub record UpstreamConfig : Type 0 where
  pub base_url : String
  pub model : String
  pub credential_ref : String

pub record GatewayConfig : Type 0 where
  pub url : String
  pub port : ℕ
  pub admin_port : ℕ
  pub auto_start : Bool
  pub startup_timeout_seconds : ℕ
  pub state_dir : Option String
  pub strict_validation : Bool

pub record AutoRouterConfig : Type 0 where
  pub gateway : GatewayConfig
  pub upstream : UpstreamConfig
  pub candidates : List CandidateConfig
  pub source_path : Option String

-- `credential_ref.split(":", 1)[1]`, of a reference with a colon
unfoldable pub credential_env_var : String → Option String
unfolding partition
credential_env_var ref = if ref == "none" then none else some (partition 58 ref).1

-- `_migrate_upstream`
unfoldable pub migrate_upstream : UpstreamConfig → List CandidateConfig
migrate_upstream upstream =
    record {
      id = "legacy-upstream";
      provider = "openai-compatible";
      model = upstream.model;
      base_url = upstream.base_url;
      credential_ref = upstream.credential_ref;
      tier = "balanced";
      context_window = 128000;
      supports_tools = true;
      supports_vision = true;
    }
    ∷ []

unfoldable pub resolved_candidates : AutoRouterConfig → List CandidateConfig
unfolding migrate_upstream
resolved_candidates config = elim config.candidates [
  | [] ↦ migrate_upstream config.upstream
  | c ∷ cs ↦ c ∷ cs
]
