-- ===== src/Gateway/Catalog/Build.antt =====
-- workflow-gateway/internal/catalog/build.go: the two tables of endpoints, each with the errors
-- that are not fatal. An error keeps the names that its message prints.
pub mod Sound
pub mod Extends
pub mod Complete
pub mod Cached
use logic_operator.Prelude.{
  String, ◌||◌, none, some, List, [], ◌∷◌, ◌++◌, text_Eq, ◌==◌, if◌then◌else◌, Outcome, ok, err,
}
use logic_operator.Prelude.Assoc.{get, put}
use logic_operator.Prelude.Text.{sprintf}
use logic_operator.Api.Definition.{
  LogicFlowDefinition, label_workflow_name, label_workflow_namespace, label_workflow_version,
}
use logic_operator.Api.Service.{LogicFlowService, TrafficSpec}
use logic_operator.Gateway.Routing.{WorkflowKey, Url, Endpoints, key_Eq}
use logic_operator.Gateway.Catalog.Urls.{ParsedUrl, UrlError, validate_external_url}

pub data BuildError : Type 0 where
  -- namespace, name, URL
  invalid_url : String → String → Url → UrlError → BuildError
  -- namespace, name, definition
  unresolved : String → String → String → String → BuildError
  missing_labels : String → String → BuildError
  no_runtime_ref : String → String → BuildError
  -- namespace and name of what is refused, key, the URL that stays, the URL that is refused
  duplicate_key : String × String → WorkflowKey → Url → Url → BuildError

pub record Build : Type 0 where
  pub endpoints : Endpoints
  pub errors : List BuildError

-- `labels[key]`, which is empty where the key is missing
abbrev pub label : LogicFlowDefinition → String → String
label def key = elim (get key def.labels) [ none ↦ "" | some value ↦ value ]

-- workflowKeyFromLabels
unfoldable pub workflow_key_from_labels : LogicFlowDefinition → Outcome BuildError WorkflowKey
workflow_key_from_labels def =
    let ns = label def label_workflow_namespace in
    let name = label def label_workflow_name in
    let version = label def label_workflow_version in
    if ns == "" || (name == "" || version == "")
    then err (missing_labels def.namespace def.name)
    else ok (record { namespace = ns; name = name; version = version })

unfoldable pub traffic_names : List TrafficSpec → List String
traffic_names [] = []
traffic_names (t ∷ traffic) =
    let rest = traffic_names traffic in
    if t.definition_ref == "" then rest else t.definition_ref ∷ rest

-- referencedDefinitions
unfoldable pub referenced_definitions : LogicFlowService → List String
unfolding traffic_names
referenced_definitions svc = elim svc.spec.default_definition [
  | none ↦ traffic_names svc.spec.traffic
  | some name ↦ if name == "" then traffic_names svc.spec.traffic else name ∷ []
]

abbrev pub note : Build → BuildError → Build
note b e = record b { errors = b.errors ++ (e ∷ []) }

-- The tail of both loops, for a resource by namespace and name: a key that is taken with another
-- URL is an error, else it is set.
unfoldable pub claim : Build → String × String → WorkflowKey → Url → Build
claim b owner key url = elim (get key b.endpoints) [
  | none ↦ record b { endpoints = put key url b.endpoints }
  | some existing ↦
      if existing == url
      then record b { endpoints = put key url b.endpoints }
      else note b (duplicate_key owner key existing url)
]

claim_definition : Build → LogicFlowService → LogicFlowDefinition → Build
claim_definition b svc def = elim (workflow_key_from_labels def) [
  | err e ↦ note b e
  | ok key ↦ claim b (svc.namespace, svc.name) key svc.status.url
]

-- `definitionResolver`
abbrev pub DefinitionResolver : Type 0
DefinitionResolver = String → String → Outcome String LogicFlowDefinition

module _ (parse : String → Outcome String ParsedUrl) (resolve : DefinitionResolver) where
  step_name : LogicFlowService → Build → String → Build
  unfolding claim_definition
  step_name svc b name = elim (resolve svc.namespace name) [
    | err message ↦ note b (unresolved svc.namespace svc.name name message)
    | ok def ↦ claim_definition b svc def
  ]

  names_loop : LogicFlowService → Build → List String → Build
  names_loop svc b [] = b
  names_loop svc b (name ∷ names) = names_loop svc (step_name svc b name) names

  step_service : Build → LogicFlowService → Build
  step_service b svc =
      if svc.status.url == "" then b else (elim (validate_external_url parse svc.status.url) [
        | err e ↦ note b (invalid_url svc.namespace svc.name svc.status.url e)
        | ok _ ↦ names_loop svc b (referenced_definitions svc)
      ])

  services_loop : Build → List LogicFlowService → Build
  services_loop b [] = b
  services_loop b (svc ∷ services) = services_loop (step_service b svc) services

  -- BuildExecutionEndpoints
  unfoldable pub build_execution_endpoints : List LogicFlowService → Build
  unfolding services_loop step_service names_loop step_name
  build_execution_endpoints services =
      services_loop (record { endpoints = []; errors = [] }) services

-- The Service of a runtime, as DNS search resolves it
unfoldable pub runtime_service_url : String → String → Url
runtime_service_url runtime_name namespace =
    sprintf ("http://" ∷ runtime_name ∷ "." ∷ namespace ∷ [])

step_definition : Build → LogicFlowDefinition → Build
step_definition b def = elim (workflow_key_from_labels def) [
  | err e ↦ note b e
  | ok key ↦
      if def.spec.runtime_ref == ""
      then note b (no_runtime_ref def.namespace def.name)
      else claim b (def.namespace, def.name) key
          (runtime_service_url def.spec.runtime_ref def.namespace)
]

definitions_loop : Build → List LogicFlowDefinition → Build
definitions_loop b [] = b
definitions_loop b (def ∷ definitions) = definitions_loop (step_definition b def) definitions

-- BuildRuntimeServiceEndpoints
unfoldable pub build_runtime_service_endpoints : List LogicFlowDefinition → Build
unfolding definitions_loop step_definition
build_runtime_service_endpoints definitions =
    definitions_loop (record { endpoints = []; errors = [] }) definitions
