-- ===== src/Api/Service.antt =====
-- api/v1/logicflowservice_types.go and ingress_types.go
use logic_operator.Prelude.{ℕ, String, ◌+◌, ◌%◌, ◌^◌, Bool, Option, List, [], ◌∷◌}
use logic_operator.Prelude.Assoc.{Assoc}
use logic_operator.Api.Conditions.{Condition}

-- CertManagerIssuerRef
pub record CertManagerIssuerRef : Type 0 where
  pub name : String
  pub kind : String

pub record TlsSpec : Type 0 where
  pub enabled : Bool
  pub secret_ref : String
  pub cert_manager : Option CertManagerIssuerRef

pub record GatewayRef : Type 0 where
  pub name : String
  pub namespace : Option String

pub record IngressSpec : Type 0 where
  pub host : String
  pub ingress_class_name : Option String
  pub gateway_ref : Option GatewayRef
  pub annotations : Assoc String String
  pub tls : TlsSpec

-- TrafficSpec. A weight is an int32, kept as its 32-bit pattern.
pub record TrafficSpec : Type 0 where
  pub definition_ref : String
  pub weight : ℕ

pub record LogicFlowServiceSpec : Type 0 where
  pub default_definition : Option String
  pub traffic : List TrafficSpec
  pub ingress : IngressSpec

unfoldable pub total_weight_loop : ℕ → List TrafficSpec → ℕ
total_weight_loop total [] = total
total_weight_loop total (t ∷ traffic) = total_weight_loop ((total + t.weight) % 2 ^ 32) traffic

-- TotalWeight: a sum in int32.
unfoldable pub total_weight : LogicFlowServiceSpec → ℕ
unfolding total_weight_loop
total_weight spec = total_weight_loop 0 spec.traffic

pub record TrafficStatus : Type 0 where
  pub definition_ref : String
  pub weight : ℕ
  pub ready : Bool

pub record LogicFlowServiceStatus : Type 0 where
  pub observed_generation : ℕ
  pub runtime_ref : Option String
  pub ingress_ref : Option String
  pub route_ref : Option String
  pub http_route_ref : Option String
  pub url : String
  pub traffic : List TrafficStatus
  pub conditions : List Condition

pub record LogicFlowService : Type 0 where
  pub name : String
  pub namespace : String
  pub uid : String
  pub generation : ℕ
  pub labels : Assoc String String
  pub spec : LogicFlowServiceSpec
  pub status : LogicFlowServiceStatus
