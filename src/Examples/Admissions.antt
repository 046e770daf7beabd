-- ===== src/Examples/Admissions.antt =====
-- The theorems on the webhooks, at work.
use logic_operator.Prelude.{
  String, ◌≡◌, refl, ◌≢◌, ◌↔◌, Bool, true, false, none, some, List, [], ◌∷◌, Outcome, ok, err,
  text_Eq, ◌==◌, if◌then◌else◌, is_some, In, All,
}
use logic_operator.Prelude.Assoc.{get}
use logic_operator.Prelude.Text.{begins_with, ends_with, sprintf}
use logic_operator.Api.Definition.{LogicFlowDefinition, Workflow, parse_flow}
use logic_operator.Api.Platform.{LogicPlatform}
use logic_operator.Api.Conditions.{pending}
use logic_operator.Api.Runtime.{LogicFlowRuntime, security_api_key}
use logic_operator.Gateway.Catalog.Build.{referenced_definitions}
use logic_operator.Admission.Service.{
  validate_update, validate, validate_traffic_config, validate_ingress, validate_tls,
  validate_definitions, resolve_definition_refs, resolve_workflow_name, check_definition,
  definitions_loop,
}
use logic_operator.Admission.Service.Accepts.{IsAccepted, validate-IsAccepted}
use logic_operator.Admission.Service.Versions.{IsVersion}
use logic_operator.Admission.Service.Uses.{
  referenced_definitions-IsVersion, validate_update-IsAccepted,
}
use logic_operator.Admission.Definition.{DefinitionList, versions_of, validate_create}
use logic_operator.Admission.Definition.Accepts.{Shares, validate_create_iff}
use logic_operator.Admission.Platform.{
  Versions, apply_logic_platform_defaults, default_data_index_image, default_gateway_image,
}
use logic_operator.Admission.Platform.Defaults.{validate-apply_logic_platform_defaults}
use logic_operator.Admission.Runtime.{
  IsUsable, validate-IsUsable, is_known_runner_image, has_persistence, validate_security_spec,
  validate_runner_image,
}
use logic_operator.Examples.Data.{def_of, definitions, service}
use logic_operator.Examples.Platforms.{application, platform}

abbrev pub from_json : String → Outcome String Workflow
from_json text = ok (record {
  document_name = "order";
  document_version = "1.0";
  document_namespace = "default";
  body = text;
})

abbrev pub fetch : String → String → Outcome String LogicFlowDefinition
fetch namespace name = if name == "order-v1" then ok (def_of "order-v1" "1.0") else err "not found"

abbrev pub list : DefinitionList
list namespace labels = ok definitions

validate-IsAccepted_example :
    (validate from_json fetch false service ≡ ok tt) ↔ IsAccepted from_json fetch false service
validate-IsAccepted_example = validate-IsAccepted from_json fetch false service

pub admitted : validate from_json fetch false service ≡ ok tt
unfolding validate validate_traffic_config validate_ingress validate_tls validate_definitions
    resolve_definition_refs resolve_workflow_name check_definition definitions_loop get
admitted = refl

referenced_definitions-IsVersion_example :
    (runtime : String) × (workflow : String) × ((name : String)
      → In name (referenced_definitions service)
      → IsVersion from_json fetch "shop" runtime workflow name)
referenced_definitions-IsVersion_example =
    referenced_definitions-IsVersion from_json fetch false service admitted

validate_update-IsAccepted_example :
    (validate_update from_json fetch false service service ≡ ok tt) ↔ (
      (is_some service.spec.ingress.gateway_ref ≡ is_some service.spec.ingress.gateway_ref)
      × IsAccepted from_json fetch false service)
validate_update-IsAccepted_example =
    validate_update-IsAccepted from_json fetch false service service

abbrev pub order : LogicFlowDefinition
order = def_of "order-v3" "3.0"

validate_create_iff_example : (validate_create from_json list order ≡ ok tt) ↔ (
    (order.spec.runtime_ref ≢ "")
    × (wf : Workflow) × (existing : List LogicFlowDefinition) × (parse_flow from_json order.spec
        ≡ ok wf)
    × (list "shop" (versions_of wf.document_name "shop") ≡ ok existing)
    × All (Shares order) existing)
validate_create_iff_example = validate_create_iff from_json list order

abbrev versions : Versions
versions = record { data_index = "2.0.0"; workflow_gateway = "2.0.0" }

abbrev pub our_platform : LogicPlatform
our_platform = platform "shop" ""

abbrev image_ok : String → Bool
image_ok image =
    if image == "quay.io/kubesmarts/data-index-service:2.0.0"
    then true
    else image == "quay.io/kubesmarts/workflow-gateway:2.0.0"

data_index_image_ok : image_ok (default_data_index_image versions) ≡ true
unfolding default_data_index_image sprintf
data_index_image_ok = refl

gateway_image_ok : image_ok (default_gateway_image versions) ≡ true
unfolding default_gateway_image sprintf
gateway_image_ok = refl

abbrev list_platforms : String → Outcome String (List LogicPlatform)
list_platforms namespace = ok (our_platform ∷ [])

validate-apply_logic_platform_defaults_example :
    logic_operator.Admission.Platform.validate image_ok list_platforms
      (apply_logic_platform_defaults versions our_platform)
    ≡ logic_operator.Admission.Platform.validate image_ok list_platforms our_platform
validate-apply_logic_platform_defaults_example =
    validate-apply_logic_platform_defaults image_ok versions data_index_image_ok gateway_image_ok
      list_platforms our_platform

abbrev pub runtime : LogicFlowRuntime
runtime = record {
  name = "runner";
  namespace = "shop";
  uid = "u7";
  generation = 4;
  labels = [];
  status = record {
    observed_generation = 3;
    phase = pending;
    replicas = 0;
    selector = "";
    ready_replicas = 0;
    definitions = [];
    deployment_ref = "";
    service_ref = "";
    config_map_refs = [];
    lease_replicas = 0;
    conditions = [];
  };
  spec = record {
    persistence = none;
    application = record application {
      image = "quay.io/quarkiverse/quarkus-flow-runner:1-minimal";
    };
    security = record {
      kind = security_api_key;
      api_key = some (
          record {
            name = "ci";
            secret_ref = record { name = "keys"; key = "value" };
            roles = "flow-invoker" ∷ [];
          }
          ∷ []);
      oidc = none;
    };
    logging = none;
  };
}

pub runtime_admitted : logic_operator.Admission.Runtime.validate runtime ≡ ok tt
unfolding logic_operator.Admission.Runtime.validate validate_security_spec validate_runner_image
    is_known_runner_image begins_with ends_with has_persistence
runtime_admitted = refl

validate-IsUsable_example : IsUsable runtime
validate-IsUsable_example = validate-IsUsable runtime runtime_admitted
