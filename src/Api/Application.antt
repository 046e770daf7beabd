-- ===== src/Api/Application.antt =====
-- api/v1: what the resources share about workloads (deployment_types.go, podtemplate_types.go,
-- persistence_types.go, ingress_types.go). Fields that no modelled operation reads are left out.
use logic_operator.Prelude.{ℕ, String, Bool, Option}
use logic_operator.Prelude.Assoc.{Assoc}
use logic_operator.Api.Container.{ContainerSpec, PodTemplateSpec, Resources}
use logic_operator.Api.Service.{TlsSpec}

pub record ApplicationSpec : Type 0 where
  pub image : String
  pub image_pull_policy : String
  pub replicas : Option ℕ
  pub resources : Resources
  pub pod_template : PodTemplateSpec
  pub container : ContainerSpec

pub record PostgreSqlSecretOptions : Type 0 where
  pub name : String
  pub user_key : String
  pub password_key : String

pub record SqlServiceOptions : Type 0 where
  pub name : String
  pub namespace : String
  pub port : Option ℕ
  pub database_name : String

-- PostgreSQLServiceOptions: the embedded pointer `*SQLServiceOptions` may be nil.
pub record PostgreSqlServiceOptions : Type 0 where
  pub sql : Option SqlServiceOptions
  pub database_schema : String

-- TLSConnection
pub record TlsConnection : Type 0 where
  pub enabled : Bool
  pub tls_mode : String

pub record PersistencePostgreSql : Type 0 where
  pub secret_ref : PostgreSqlSecretOptions
  pub service_ref : PostgreSqlServiceOptions
  pub tls : Option TlsConnection

pub record PersistenceOptionsSpec : Type 0 where
  pub postgresql : Option PersistencePostgreSql

-- DataIndexIngressSpec
pub record DataIndexIngressSpec : Type 0 where
  pub enabled : Bool
  pub host : String
  pub annotations : Assoc String String
  pub tls : TlsSpec
