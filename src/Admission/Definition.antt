-- ===== src/Admission/Definition.antt =====
-- api/v1/logicflowdefinition_webhook.go. `from_json` is the parser of the sdk, `list` the client's
-- `List` of the definitions of a namespace with the given labels.
pub mod Accepts
use logic_operator.Prelude.{
  String, Bool, not, ◌&&◌, List, [], ◌∷◌, Outcome, ok, err, text_Eq, ◌==◌, if◌then◌else◌,
}
use logic_operator.Prelude.Assoc.{Assoc}
use logic_operator.Api.Definition.{
  LogicFlowDefinition, Workflow, FlowError, parse_flow, label_workflow_name,
  label_workflow_namespace,
}

pub data DefinitionError : Type 0 where
  runtime_required : DefinitionError
  flow_refused old_flow_refused : FlowError → DefinitionError
  list_failed : String → DefinitionError
  -- namespace, workflow, the runtime that it is on
  deployed_elsewhere : String → String → String → DefinitionError
  runtime_changed name_changed : DefinitionError

abbrev pub DefinitionList : Type 0
DefinitionList = String → Assoc String String → Outcome String (List LogicFlowDefinition)

-- The labels that list the versions of a workflow
abbrev pub versions_of : String → String → Assoc String String
versions_of name namespace =
    (label_workflow_name, name) ∷ (label_workflow_namespace, namespace) ∷ []

-- The loop of validateSameRuntime
unfoldable pub same_runtime_loop :
    LogicFlowDefinition → String → List LogicFlowDefinition → Outcome DefinitionError (Unit {0})
same_runtime_loop obj name [] = ok tt
same_runtime_loop obj name (d ∷ existing) =
    let rest = same_runtime_loop obj name existing in
    if d.name == obj.name
    then rest
    else if not (d.spec.runtime_ref == obj.spec.runtime_ref)
    then err (deployed_elsewhere obj.namespace name d.spec.runtime_ref)
    else rest

-- validateSameRuntime
unfoldable pub validate_same_runtime :
    DefinitionList → LogicFlowDefinition → String → Outcome DefinitionError (Unit {0})
validate_same_runtime list obj name = elim (list obj.namespace (versions_of name obj.namespace)) [
  | err message ↦ err (list_failed message)
  | ok existing ↦ same_runtime_loop obj name existing
]

module _ (from_json : String → Outcome String Workflow) where
  -- ValidateCreate
  unfoldable pub validate_create :
      DefinitionList → LogicFlowDefinition → Outcome DefinitionError (Unit {0})
  validate_create list obj =
      if obj.spec.runtime_ref == ""
      then err runtime_required
      else (elim (parse_flow from_json obj.spec) [
        | err e ↦ err (flow_refused e)
        | ok wf ↦ validate_same_runtime list obj wf.document_name
      ])

  -- ValidateUpdate
  unfoldable pub validate_update :
      LogicFlowDefinition → LogicFlowDefinition → Outcome DefinitionError (Unit {0})
  validate_update old new =
      if not (old.spec.runtime_ref == new.spec.runtime_ref)
      then err runtime_changed
      else (elim (parse_flow from_json new.spec) [
        | err e ↦ err (flow_refused e)
        | ok new_wf ↦ elim (parse_flow from_json old.spec) [
          | err e ↦ err (old_flow_refused e)
          | ok old_wf ↦
              if old_wf.document_name == new_wf.document_name then ok tt else err name_changed
        ]
      ])
