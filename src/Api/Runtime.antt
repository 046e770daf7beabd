-- ===== src/Api/Runtime.antt =====
-- api/v1/logicflowruntime_types.go: runtimes
use logic_operator.Prelude.{ℕ, String, Bool, Option, List}
use logic_operator.Prelude.Assoc.{Assoc}
use logic_operator.Api.Conditions.{Condition, ApplicationPhase}
use logic_operator.Api.Application.{ApplicationSpec, PersistenceOptionsSpec}

-- RuntimeSecurityType, with any other text
pub data RuntimeSecurityType : Type 0 where
  security_none security_api_key security_oidc : RuntimeSecurityType
  security_other : String → RuntimeSecurityType

pub record SecretKeySelector : Type 0 where
  pub name : String
  pub key : String

-- APIKeySpec
pub record ApiKeySpec : Type 0 where
  pub name : String
  pub secret_ref : SecretKeySelector
  pub roles : List String

-- OIDCAuthSpec
pub record OidcAuthSpec : Type 0 where
  pub auth_server_url : String
  pub client_id : String
  pub client_secret : SecretKeySelector
  pub roles_claim : String

-- RuntimeSecuritySpec; `api_key` is the list of `APIKeyAuthSpec`, `none` for a nil pointer.
pub record RuntimeSecuritySpec : Type 0 where
  pub kind : RuntimeSecurityType
  pub api_key : Option (List ApiKeySpec)
  pub oidc : Option OidcAuthSpec

-- StructuredLoggingSpec
pub record StructuredLoggingSpec : Type 0 where
  pub enabled : Option Bool
  pub include_workflow_payloads : Option Bool
  pub include_task_payloads : Option Bool

-- LogicFlowRuntimeSpec, with RuntimeSpec in it
pub record LogicFlowRuntimeSpec : Type 0 where
  pub persistence : Option PersistenceOptionsSpec
  pub application : ApplicationSpec
  pub security : RuntimeSecuritySpec
  pub logging : Option StructuredLoggingSpec

-- RuntimeDefinitionStatus
pub record RuntimeDefinitionStatus : Type 0 where
  pub name : String
  pub version : String

pub record LogicFlowRuntimeStatus : Type 0 where
  pub observed_generation : ℕ
  pub phase : ApplicationPhase
  pub replicas : ℕ
  pub selector : String
  pub ready_replicas : ℕ
  pub definitions : List RuntimeDefinitionStatus
  pub deployment_ref : String
  pub service_ref : String
  pub config_map_refs : List String
  pub lease_replicas : ℕ
  pub conditions : List Condition

pub record LogicFlowRuntime : Type 0 where
  pub name : String
  pub namespace : String
  pub uid : String
  pub generation : ℕ
  pub labels : Assoc String String
  pub spec : LogicFlowRuntimeSpec
  pub status : LogicFlowRuntimeStatus
