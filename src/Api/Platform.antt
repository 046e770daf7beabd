-- ===== src/Api/Platform.antt =====
-- api/v1/logicplatform_types.go. Status fields that no modelled operation reads are left out.
use logic_operator.Prelude.{ℕ, String, Bool, Option, List}
use logic_operator.Api.Conditions.{Condition, ApplicationPhase}
use logic_operator.Api.Application.{ApplicationSpec, PersistenceOptionsSpec, DataIndexIngressSpec}

pub record VectorSpec : Type 0 where
  pub enabled : Bool
  pub watch_namespaces : Option (List String)
  pub debug_events : Bool
  pub application : ApplicationSpec

pub record DataIndexSpec : Type 0 where
  pub enabled : Bool
  pub application : ApplicationSpec
  pub persistence : Option PersistenceOptionsSpec
  pub vector : Option VectorSpec
  pub ingress : Option DataIndexIngressSpec

pub record WorkflowGatewaySpec : Type 0 where
  pub application : ApplicationSpec
  pub ingress : Option DataIndexIngressSpec

pub record LogicPlatformSpec : Type 0 where
  pub data_index : DataIndexSpec
  pub workflow_gateway : Option WorkflowGatewaySpec

pub record ReplicaStatus : Type 0 where
  pub desired : ℕ
  pub current : ℕ
  pub ready : ℕ
  pub updated : ℕ

pub record DataIndexServiceStatus : Type 0 where
  pub deployment_ref : String
  pub service_ref : String
  pub replicas : ReplicaStatus
  pub graphql_endpoint : String
  pub metrics_endpoint : String
  pub url : String

-- PersistenceConfigStatus
pub record PersistenceConfigStatus : Type 0 where
  pub valid : Bool
  pub secret_exists : Bool
  pub service_exists : Bool
  pub database_connected : Option Bool
  pub error : String

pub record DataIndexStatus : Type 0 where
  pub ready : Bool
  pub service : DataIndexServiceStatus
  pub persistence : Option PersistenceConfigStatus

pub record ComponentStatus : Type 0 where
  pub ready : Bool

pub record LogicPlatformStatus : Type 0 where
  pub observed_generation : ℕ
  pub data_index : Option DataIndexStatus
  pub vector : Option ComponentStatus
  pub workflow_gateway : Option ComponentStatus
  pub conditions : List Condition
  pub phase : ApplicationPhase

pub record LogicPlatform : Type 0 where
  pub name : String
  pub namespace : String
  pub uid : String
  pub generation : ℕ
  pub spec : LogicPlatformSpec
  pub status : LogicPlatformStatus
