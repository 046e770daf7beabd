-- ===== src/Api/Definition.antt =====
-- api/v1/logicflowdefinition_types.go
use logic_operator.Prelude.{ℕ, String, Option, none, some, ok, err, Outcome, List}
use logic_operator.Prelude.Assoc.{Assoc}
use logic_operator.Api.Conditions.{Condition}

abbrev pub label_runtime_ref : String
label_runtime_ref = "logic.kubesmarts.org/runtime-ref"

abbrev pub label_workflow_name : String
label_workflow_name = "logic.kubesmarts.org/workflow-name"

abbrev pub label_workflow_version : String
label_workflow_version = "logic.kubesmarts.org/workflow-version"

abbrev pub label_workflow_namespace : String
label_workflow_namespace = "logic.kubesmarts.org/workflow-namespace"

-- LogicFlowDefinitionSpec. `flow` is `Flow.Raw`, `none` for nil.
pub record LogicFlowDefinitionSpec : Type 0 where
  pub runtime_ref : String
  pub flow : Option String

pub record LogicFlowDefinitionStatus : Type 0 where
  pub observed_generation : ℕ
  pub workflow_name : String
  pub workflow_version : String
  pub workflow_namespace : String
  pub config_map_ref : Option String
  pub conditions : List Condition

pub record LogicFlowDefinition : Type 0 where
  pub name : String
  pub namespace : String
  pub uid : String
  pub generation : ℕ
  pub labels : Assoc String String
  pub spec : LogicFlowDefinitionSpec
  pub status : LogicFlowDefinitionStatus

-- The document header of `model.Workflow` of the sdk, with the rest of the document.
pub record Workflow : Type 0 where
  pub document_name : String
  pub document_version : String
  pub document_namespace : String
  pub body : String

pub data FlowError : Type 0 where
  flow_empty : FlowError
  flow_invalid : String → FlowError

-- ParseFlow; `from_json` is the parser of the sdk.
unfoldable pub parse_flow :
    (String → Outcome String Workflow) → LogicFlowDefinitionSpec → Outcome FlowError Workflow
parse_flow from_json spec = elim spec.flow [
  | none ↦ err flow_empty
  | some raw ↦ elim (from_json raw) [ ok wf ↦ ok wf | err message ↦ err (flow_invalid message) ]
]
