-- ===== src/Controller/Definition.antt =====
-- internal/controller/logicflowdefinition_controller.go. What the API server answers during one
-- reconciliation is the parameter `server`; the conditions go through `api`, and the parser and the
-- printer of flow documents are parameters too. `RetryOnConflict` belongs to `write_status`.
pub mod Labels
pub mod Applied
use logic_operator.Prelude.{
  ℕ, String, Bool, true, false, not, ◌&&◌, Option, none, some, List, [], ◌∷◌, Outcome, ok, err,
  text_Eq, ◌==◌, if◌then◌else◌,
}
use logic_operator.Prelude.Assoc.{Assoc, get, put}
use logic_operator.Prelude.Text.{sprintf, quoted}
use logic_operator.Api.Client.{GetError, not_found, other_error}
use logic_operator.Api.Conditions.{
  Condition, ConditionsApi, Status, condition_true, condition_false, set_condition,
}
use logic_operator.Api.Definition.{
  LogicFlowDefinition, LogicFlowDefinitionStatus, Workflow, FlowError, flow_empty, flow_invalid,
  parse_flow, label_runtime_ref, label_workflow_name, label_workflow_version,
  label_workflow_namespace,
}
use logic_operator.Admission.Definition.{DefinitionList, versions_of}
use logic_operator.Gateway.Catalog.Build.{label}
use logic_operator.Controller.Objects.{Object, child_labels}

-- corev1.ConfigMap, as it is applied; the owner is a name and a UID.
pub record ConfigMap : Type 0 where
  pub name : String
  pub namespace : String
  pub labels : Assoc String String
  pub owner : String × String
  pub data_key : String
  pub document : String

pub record Server : Type 0 where
  pub fetch : String → String → Outcome GetError LogicFlowDefinition
  pub patch : LogicFlowDefinition → Outcome String LogicFlowDefinition
  pub list : DefinitionList
  pub apply : ConfigMap → Outcome String (Unit {0})
  pub fetch_runtime : String → String → Outcome GetError (Unit {0})
  pub write_status : LogicFlowDefinition → Outcome String (Unit {0})

-- The result of `Reconcile` with what it applied and the status that it wrote
pub record Reconciled : Type 0 where
  pub requeue_after : ℕ
  pub failure : Option String
  pub applied : Option ConfigMap
  pub written : Option LogicFlowDefinition

abbrev pub nothing : Reconciled
nothing = record { requeue_after = 0; failure = none; applied = none; written = none }

abbrev pub failed : String → Reconciled
failed message = record nothing { failure = some message }

abbrev pub flow_error_text : FlowError → String
flow_error_text flow_empty = "flow field is empty"
flow_error_text (flow_invalid message) = sprintf ("failed to parse flow: " ∷ message ∷ [])

-- configMapName
unfoldable pub config_map_name : LogicFlowDefinition → String
config_map_name def = sprintf ("lfd-" ∷ def.name ∷ [])

-- The labels that name a workflow, set one after the other
unfoldable pub put_workflow_labels :
    Assoc String String → LogicFlowDefinition → Workflow → Assoc String String
put_workflow_labels labels def wf = put label_runtime_ref def.spec.runtime_ref (
    put label_workflow_namespace def.namespace (
      put label_workflow_version wf.document_version
        (put label_workflow_name wf.document_name labels)))

abbrev pub labels_current : LogicFlowDefinition → Workflow → Bool
labels_current def wf =
    label def label_workflow_name == wf.document_name
    && (label def label_workflow_version == wf.document_version
        && (label def label_workflow_namespace == def.namespace
            && label def label_runtime_ref == def.spec.runtime_ref))

-- updateStatus, before the write
unfoldable pub update_status : LogicFlowDefinition → Workflow → LogicFlowDefinition
unfolding config_map_name
update_status def wf = record def {
  status = record {
    observed_generation = def.generation;
    workflow_name = wf.document_name;
    workflow_version = wf.document_version;
    workflow_namespace = def.namespace;
    config_map_ref = some (config_map_name def);
    conditions = def.status.conditions;
  };
}

-- updateFlowIDLabels, up to the patch: `none` where nothing changes
unfoldable pub update_flow_id_labels : LogicFlowDefinition → Workflow → Option LogicFlowDefinition
unfolding put_workflow_labels
update_flow_id_labels def wf =
    if labels_current def wf
    then none
    else some (record def { labels = put_workflow_labels def.labels def wf })

-- The loop of checkRuntimeConsistency: the runtime of the first definition on another one
unfoldable pub find_conflict : LogicFlowDefinition → List LogicFlowDefinition → Option String
find_conflict def [] = none
find_conflict def (d ∷ siblings) =
    let rest = find_conflict def siblings in
    if d.name == def.name
    then rest
    else if not (d.spec.runtime_ref == def.spec.runtime_ref)
    then some d.spec.runtime_ref
    else rest

abbrev object_of : LogicFlowDefinition → Object
object_of def = record {
  name = def.name;
  namespace = def.namespace;
  uid = def.uid;
  labels = def.labels;
}

-- The ConfigMap of applyConfigMap
unfoldable pub config_map_of : LogicFlowDefinition → Workflow → String → ConfigMap
unfolding config_map_name child_labels put_workflow_labels
config_map_of def wf document = record {
  name = config_map_name def;
  namespace = def.namespace;
  labels = put_workflow_labels (child_labels (object_of def)) def wf;
  owner = (def.name, def.uid);
  data_key = sprintf (wf.document_name ∷ ".yaml" ∷ []);
  document = document;
}

module _ (api : ConditionsApi) (from_json : String → Outcome String Workflow)
    (to_yaml : Workflow → Outcome String String) (server : Server) where
  abbrev pub with_condition :
      LogicFlowDefinition → String → Status → String → String → LogicFlowDefinition
  with_condition def kind status reason message = record def {
    status = record def.status {
      conditions =
          set_condition api def.status.conditions kind status def.generation reason message;
    };
  }

  -- checkRuntimeConsistency, on the siblings that are listed
  unfoldable pub check_runtime_consistency :
      LogicFlowDefinition → Workflow → List LogicFlowDefinition → Bool × LogicFlowDefinition
  check_runtime_consistency def wf siblings = elim (find_conflict def siblings) [
    | some runtime ↦ (
      true,
      with_condition def "RuntimeConsistent" condition_false "RuntimeConflict" (
          sprintf (
            "workflow "
            ∷ def.namespace
            ∷ "/"
            ∷ wf.document_name
            ∷ " has conflicting runtimes: "
            ∷ quoted def.spec.runtime_ref
            ∷ " vs "
            ∷ quoted runtime
            ∷ [])),
    )
    | none ↦ (false, with_condition def "RuntimeConsistent" condition_true "Ready" "")
  ]

  -- applyConfigMap with the condition that follows it: what was applied, and the definition
  unfoldable pub apply_config_map :
      LogicFlowDefinition → Workflow → Option ConfigMap × LogicFlowDefinition
  unfolding config_map_of
  apply_config_map def wf = elim (to_yaml (record wf { document_namespace = def.namespace })) [
    | err message ↦ (
      none,
      with_condition def "ConfigMapReady" condition_false "SSAApplyFailed"
          (sprintf ("failed to serialize flow document: " ∷ message ∷ [])),
    )
    | ok document ↦ elim (server.apply (config_map_of def wf document)) [
      | err message ↦
          (none, with_condition def "ConfigMapReady" condition_false "SSAApplyFailed" message)
      | ok _ ↦ (
        some (config_map_of def wf document),
        with_condition def "ConfigMapReady" condition_true "Ready" "",
      )
    ]
  ]

  -- A status write that ends the reconciliation
  unfoldable pub finish : ℕ → Option ConfigMap → LogicFlowDefinition → Reconciled
  finish requeue applied def = elim (server.write_status def) [
    | ok _ ↦ record {
      requeue_after = requeue;
      failure = none;
      applied = applied;
      written = some def;
    }
    | err message ↦ record {
      requeue_after = requeue;
      failure = some message;
      applied = applied;
      written = none;
    }
  ]

  -- The check of the runtime at the end of `Reconcile`
  unfoldable pub check_runtime : Option ConfigMap → LogicFlowDefinition → Workflow → Reconciled
  unfolding finish update_status
  check_runtime applied def wf = elim (server.fetch_runtime def.namespace def.spec.runtime_ref) [
    | err not_found ↦ finish 30 applied (
        update_status
          (with_condition def "RuntimeRefValid" condition_false "RuntimeNotFound"
            (sprintf ("LogicFlowRuntime " ∷ quoted def.spec.runtime_ref ∷ " not found" ∷ [])))
          wf)
    | err (other_error message) ↦ record (failed message) { applied = applied }
    | ok _ ↦
        finish 0 applied
          (update_status (with_condition def "RuntimeRefValid" condition_true "Ready" "") wf)
  ]

  -- `Reconcile` of a definition whose labels are current
  unfoldable pub reconcile_labelled : LogicFlowDefinition → Workflow → Reconciled
  unfolding check_runtime apply_config_map check_runtime_consistency
  reconcile_labelled def wf =
      elim (server.list def.namespace (versions_of wf.document_name def.namespace)) [
        | err message ↦ failed message
        | ok siblings ↦
            let (conflict, checked) = check_runtime_consistency def wf siblings in
            let (applied, ready) = apply_config_map checked wf in
            if conflict then check_runtime none checked wf else check_runtime applied ready wf
      ]

  -- `Reconcile` of a definition with its parsed flow
  unfoldable pub reconcile_parsed : LogicFlowDefinition → Workflow → Reconciled
  unfolding update_flow_id_labels reconcile_labelled finish update_status
  reconcile_parsed def wf = elim (update_flow_id_labels def wf) [
    | some changed ↦ elim (server.patch changed) [
      | err message ↦ failed message
      | ok patched ↦ finish 3 none (update_status patched wf)
    ]
    | none ↦ reconcile_labelled def wf
  ]

  -- Reconcile
  unfoldable pub reconcile : String → String → Reconciled
  unfolding reconcile_parsed finish
  reconcile namespace name = elim (server.fetch namespace name) [
    | err not_found ↦ nothing
    | err (other_error message) ↦ failed message
    | ok def ↦ elim (parse_flow from_json def.spec) [
      | err e ↦
          finish 0 none
            (with_condition def "FlowParsed" condition_false "ParseError" (flow_error_text e))
      | ok wf ↦ reconcile_parsed (with_condition def "FlowParsed" condition_true "Ready" "") wf
    ]
  ]
