-- ===== src/Admission/Platform.antt =====
-- api/v1/logicplatform_webhook.go. `image_ok` is the regular expression of ValidateImageFormat,
-- `list` the client's `List` of the platforms of a namespace, and the versions are those of the
-- build.
pub mod Defaults
use logic_operator.Prelude.{
  ℕ, String, Bool, true, false, not, ◌&&◌, Option, none, some, List, [], ◌∷◌, Outcome, ok, err,
  ◌>>◌, text_Eq, ◌==◌, if◌then◌else◌, is_some,
}
use logic_operator.Prelude.Text.{sprintf}
use logic_operator.Api.Service.{TlsSpec, CertManagerIssuerRef}
use logic_operator.Api.Container.{Resources}
use logic_operator.Api.Application.{
  ApplicationSpec, PersistenceOptionsSpec, PersistencePostgreSql, DataIndexIngressSpec,
}
use logic_operator.Api.Platform.{
  LogicPlatform, LogicPlatformSpec, DataIndexSpec, VectorSpec, WorkflowGatewaySpec,
}

-- version.GetDataIndexVersion and version.GetWorkflowGatewayVersion
pub record Versions : Type 0 where
  pub data_index : String
  pub workflow_gateway : String

-- DefaultDataIndexImage
unfoldable pub default_data_index_image : Versions → String
default_data_index_image v =
    sprintf ("quay.io/kubesmarts" ∷ "/" ∷ "data-index-service" ∷ ":" ∷ v.data_index ∷ [])

-- DefaultVectorImage
unfoldable pub default_vector_image : String
default_vector_image = sprintf ("timberio" ∷ "/" ∷ "vector" ∷ ":" ∷ "0.54.0-distroless-libc" ∷ [])

-- DefaultGatewayImage
unfoldable pub default_gateway_image : Versions → String
default_gateway_image v = sprintf ("quay.io/kubesmarts/workflow-gateway:" ∷ v.workflow_gateway ∷ [])

-- DefaultDataIndexResources
abbrev pub default_data_index_resources : Resources
default_data_index_resources = record {
  requests = some "cpu: 250m, memory: 512Mi";
  limits = some "cpu: 1000m, memory: 1Gi";
}

-- DefaultVectorResources
abbrev pub default_vector_resources : Resources
default_vector_resources = record {
  requests = some "cpu: 100m, memory: 128Mi";
  limits = some "cpu: 500m, memory: 256Mi";
}

abbrev pub or_default : String → String → String
or_default value default = if value == "" then default else value

abbrev pub default_resources : Resources → Resources → Resources
default_resources r default =
    if not (is_some r.requests) && not (is_some r.limits) then default else r

abbrev pub default_replicas : Option ℕ → Option ℕ
default_replicas none = some 1
default_replicas (some n) = some n

abbrev pub default_keys : PersistencePostgreSql → PersistencePostgreSql
default_keys pg = record pg {
  secret_ref = record pg.secret_ref {
    user_key = or_default pg.secret_ref.user_key "POSTGRESQL_USER";
    password_key = or_default pg.secret_ref.password_key "POSTGRESQL_PASSWORD";
  };
}

abbrev pub default_persistence : Option PersistenceOptionsSpec → Option PersistenceOptionsSpec
default_persistence none = none
default_persistence (some p) = elim p.postgresql [
  | none ↦ some p
  | some pg ↦ some (record p { postgresql = some (default_keys pg) })
]

-- The first part of ApplyLogicPlatformDefaults, on an enabled Data Index
unfoldable pub default_data_index : Versions → DataIndexSpec → DataIndexSpec
default_data_index v d =
    if d.enabled
    then record d {
      application = record d.application {
        image = or_default d.application.image (default_data_index_image v);
        replicas = default_replicas d.application.replicas;
        resources = default_resources d.application.resources default_data_index_resources;
      };
      persistence = default_persistence d.persistence;
    }
    else d

abbrev pub default_watch : Option (List String) → String → Option (List String)
default_watch none namespace = some (namespace ∷ [])
default_watch (some namespaces) namespace = some namespaces

abbrev pub fill_vector : String → VectorSpec → VectorSpec
fill_vector namespace x = record x {
  watch_namespaces = default_watch x.watch_namespaces namespace;
  application = record x.application {
    image = or_default x.application.image default_vector_image;
    resources = default_resources x.application.resources default_vector_resources;
    pod_template = record x.application.pod_template {
      pod = record x.application.pod_template.pod { service_account_name = "vector" };
    };
  };
}

-- The second part, on an enabled Vector
unfoldable pub default_vector : String → Option VectorSpec → Option VectorSpec
default_vector namespace none = none
default_vector namespace (some x) = if x.enabled then some (fill_vector namespace x) else some x

-- The third part
unfoldable pub default_gateway : Versions → Option WorkflowGatewaySpec → Option WorkflowGatewaySpec
default_gateway v none = none
default_gateway v (some g) = some (record g {
  application = record g.application {
    image = or_default g.application.image (default_gateway_image v);
  };
})

-- ApplyLogicPlatformDefaults; the Vector belongs to the Data Index, which the first part leaves.
unfoldable pub apply_logic_platform_defaults : Versions → LogicPlatform → LogicPlatform
unfolding default_data_index default_vector default_gateway
apply_logic_platform_defaults v plat =
    let d = default_data_index v plat.spec.data_index in
    record plat {
      spec = record {
        data_index = record d { vector = default_vector plat.namespace d.vector };
        workflow_gateway = default_gateway v plat.spec.workflow_gateway;
      };
    }

pub data PlatformError : Type 0 where
  list_failed : String → PlatformError
  -- name, namespace
  already_exists : String → String → PlatformError
  invalid_image : String → PlatformError
  persistence_required secret_required : PlatformError
  -- a nil `*SQLServiceOptions` whose field is read
  nil_service_ref : PlatformError
  service_required schema_required database_required : PlatformError
  -- the part of the specification
  host_required secret_and_cert_manager issuer_required : String → PlatformError

-- validatePostgreSQLPersistence
unfoldable pub validate_postgresql_persistence :
    Option PersistenceOptionsSpec → Outcome PlatformError (Unit {0})
validate_postgresql_persistence none = err persistence_required
validate_postgresql_persistence (some p) = elim p.postgresql [
  | none ↦ err persistence_required
  | some pg ↦ if pg.secret_ref.name == "" then err secret_required else (elim pg.service_ref.sql [
    | none ↦ err nil_service_ref
    | some sql ↦
        if sql.name == ""
        then err service_required
        else if pg.service_ref.database_schema == ""
        then err schema_required
        else if sql.database_name == ""
        then err database_required
        else ok tt
  ])
]

-- The TLS checks of validateIngress and validateWorkflowGateway
unfoldable pub validate_tls : String → TlsSpec → Outcome PlatformError (Unit {0})
validate_tls part tls = if not tls.enabled then ok tt else (elim tls.cert_manager [
  | none ↦ ok tt
  | some issuer ↦
      if not (tls.secret_ref == "")
      then err (secret_and_cert_manager part)
      else if issuer.name == ""
      then err (issuer_required part)
      else ok tt
])

-- validateIngress
unfoldable pub validate_ingress : Option DataIndexIngressSpec → Outcome PlatformError (Unit {0})
unfolding validate_tls
validate_ingress none = ok tt
validate_ingress (some ingress) =
    if ingress.enabled && ingress.host == ""
    then err (host_required "dataIndex")
    else validate_tls "dataIndex" ingress.tls

-- The loop of validateSingleton
unfoldable pub singleton_loop :
    LogicPlatform → List LogicPlatform → Outcome PlatformError (Unit {0})
singleton_loop obj [] = ok tt
singleton_loop obj (p ∷ platforms) =
    let rest = singleton_loop obj platforms in
    if not (p.name == obj.name) then err (already_exists p.name obj.namespace) else rest

-- validateSingleton
unfoldable pub validate_singleton :
    (String → Outcome String (List LogicPlatform))
    → LogicPlatform
    → Outcome PlatformError (Unit {0})
unfolding singleton_loop
validate_singleton list obj = elim (list obj.namespace) [
  | err message ↦ err (list_failed message)
  | ok platforms ↦ singleton_loop obj platforms
]

module _ (image_ok : String → Bool) where
  -- ValidateImageFormat of an image that is given
  unfoldable pub validate_image : String → Outcome PlatformError (Unit {0})
  validate_image image =
      if image == "" then ok tt else if image_ok image then ok tt else err (invalid_image image)

  -- the end of validateWorkflowGateway
  abbrev pub gateway_ingress : Option DataIndexIngressSpec → Outcome PlatformError (Unit {0})
  gateway_ingress none = ok tt
  gateway_ingress (some ingress) =
      if not ingress.enabled
      then ok tt
      else if ingress.host == ""
      then err (host_required "workflowGateway")
      else validate_tls "workflowGateway" ingress.tls

  -- validateWorkflowGateway
  unfoldable pub validate_workflow_gateway :
      Option WorkflowGatewaySpec → Outcome PlatformError (Unit {0})
  unfolding validate_image validate_tls
  validate_workflow_gateway none = ok tt
  validate_workflow_gateway (some g) =
      validate_image g.application.image >> gateway_ingress g.ingress

  unfoldable pub validate_data_index : DataIndexSpec → Outcome PlatformError (Unit {0})
  unfolding validate_image validate_postgresql_persistence validate_ingress
  validate_data_index d =
      if not d.enabled
      then ok tt
      else (validate_postgresql_persistence d.persistence
          >> (validate_image d.application.image >> validate_ingress d.ingress))

  module _ (list : String → Outcome String (List LogicPlatform)) where
    -- validate
    unfoldable pub validate : LogicPlatform → Outcome PlatformError (Unit {0})
    unfolding validate_singleton validate_data_index validate_workflow_gateway
    validate obj =
        validate_singleton list obj
        >> (validate_data_index obj.spec.data_index
            >> validate_workflow_gateway obj.spec.workflow_gateway)
