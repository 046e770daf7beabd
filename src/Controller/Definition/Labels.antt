-- ===== src/Controller/Definition/Labels.antt =====
-- The labels that the reconciler gives to a definition are those that the gateway reads.
use logic_operator.Prelude.{
  String, ◌≡◌, refl, ap, ◌∙◌, ◌≢◌, true, none, some, ok, text_Eq, ◌==◌, inl, inr, arith, Bool-cases,
  if◌then◌else◌,
}
use logic_operator.Prelude.Assoc.{Assoc, get, get-put}
use logic_operator.Api.Definition.{
  LogicFlowDefinition, Workflow, label_runtime_ref, label_workflow_name, label_workflow_version,
  label_workflow_namespace,
}
use logic_operator.Gateway.Routing.Execution.{key_of}
use logic_operator.Gateway.Catalog.Build.{label, workflow_key_from_labels}
use logic_operator.Controller.Definition.{
  update_flow_id_labels, put_workflow_labels, labels_current,
}

-- The definition after updateFlowIDLabels
abbrev pub labelled : LogicFlowDefinition → Workflow → LogicFlowDefinition
labelled def wf = elim (update_flow_id_labels def wf) [ none ↦ def | some changed ↦ changed ]

-- The four labels are those of the workflow.
pub record IsLabelled (def : LogicFlowDefinition) (wf : Workflow) : Type 0 where
  pub name : label def label_workflow_name ≡ wf.document_name
  pub version : label def label_workflow_version ≡ wf.document_version
  pub namespace : label def label_workflow_namespace ≡ def.namespace
  pub runtime : label def label_runtime_ref ≡ def.spec.runtime_ref

labels_current_iff :
    (def : LogicFlowDefinition) (wf : Workflow) → labels_current def wf ≡ true → IsLabelled def wf
labels_current_iff def wf h = record {
  name = ground (arith, h, text_Eq.same_iff (label def label_workflow_name) wf.document_name);
  version = ground (
    arith,
    h,
    text_Eq.same_iff (label def label_workflow_name) wf.document_name,
    text_Eq.same_iff (label def label_workflow_version) wf.document_version,
  );
  namespace =
      ground (arith, h, text_Eq.same_iff (label def label_workflow_namespace) def.namespace);
  runtime = ground (arith, h, text_Eq.same_iff (label def label_runtime_ref) def.spec.runtime_ref);
}

pub get-put_workflow_labels :
    (labels : Assoc String String) (def : LogicFlowDefinition) (wf : Workflow) (key : String)
    → get key (put_workflow_labels labels def wf) ≡ (
        if label_runtime_ref == key
        then some def.spec.runtime_ref
        else if label_workflow_namespace == key
        then some def.namespace
        else if label_workflow_version == key
        then some wf.document_version
        else if label_workflow_name == key
        then some wf.document_name
        else get key labels)
unfolding put_workflow_labels
get-put_workflow_labels labels def wf key = rw (get-put, get-put, get-put, get-put) refl

put-IsLabelled :
    (def : LogicFlowDefinition) (wf : Workflow)
    → IsLabelled (record def { labels = put_workflow_labels def.labels def wf }) wf
put-IsLabelled def wf = record {
  name = rw (label, get-put_workflow_labels def.labels def wf label_workflow_name) refl;
  version = rw (label, get-put_workflow_labels def.labels def wf label_workflow_version) refl;
  namespace = rw (label, get-put_workflow_labels def.labels def wf label_workflow_namespace) refl;
  runtime = rw (label, get-put_workflow_labels def.labels def wf label_runtime_ref) refl;
}

pub labelled-IsLabelled :
    (def : LogicFlowDefinition) (wf : Workflow) → IsLabelled (labelled def wf) wf
unfolding update_flow_id_labels
labelled-IsLabelled def wf = elim (Bool-cases (labels_current def wf)) [
  | inl e ↦ rw (labelled, e) (labels_current_iff def wf e)
  | inr e ↦ rw (labelled, e) (put-IsLabelled def wf)
]

labelled_namespace :
    (def : LogicFlowDefinition) (wf : Workflow) → (labelled def wf).namespace ≡ def.namespace
unfolding update_flow_id_labels
labelled_namespace def wf = ground arith

IsLabelled-current :
    (def : LogicFlowDefinition) (wf : Workflow) → IsLabelled def wf → labels_current def wf ≡ true
IsLabelled-current def wf x = ground (
  arith,
  x.name,
  x.version,
  x.namespace,
  x.runtime,
  text_Eq.same_iff (label def label_workflow_name) wf.document_name,
  text_Eq.same_iff (label def label_workflow_version) wf.document_version,
  text_Eq.same_iff (label def label_workflow_namespace) def.namespace,
  text_Eq.same_iff (label def label_runtime_ref) def.spec.runtime_ref,
)

-- Labelling is done once: a definition that was labelled needs no further change.
pub update_flow_id_labels_once :
    (def : LogicFlowDefinition) (wf : Workflow) → update_flow_id_labels (labelled def wf) wf ≡ none
unfolding update_flow_id_labels
update_flow_id_labels_once def wf =
    ground (arith, IsLabelled-current (labelled def wf) wf (labelled-IsLabelled def wf))

key-IsLabelled :
    (def : LogicFlowDefinition) (wf : Workflow)
    → IsLabelled def wf
    → def.namespace ≢ ""
    → wf.document_name ≢ ""
    → wf.document_version ≢ ""
    → workflow_key_from_labels def ≡ ok (key_of def.namespace wf.document_name wf.document_version)
unfolding workflow_key_from_labels
key-IsLabelled def wf x there named versioned = ground (
  arith,
  x.name,
  x.version,
  x.namespace,
  there,
  named,
  versioned,
  text_Eq.same_iff (label def label_workflow_name) "",
  text_Eq.same_iff (label def label_workflow_version) "",
  text_Eq.same_iff (label def label_workflow_namespace) "",
)

-- From a definition that the reconciler labelled the gateway reads the namespace of the definition
-- and the name and version of its document, if none of the three is empty.
pub workflow_key_from_labels-update_flow_id_labels :
    (def : LogicFlowDefinition) (wf : Workflow)
    → def.namespace ≢ ""
    → wf.document_name ≢ ""
    → wf.document_version ≢ ""
    → workflow_key_from_labels (labelled def wf)
      ≡ ok (key_of def.namespace wf.document_name wf.document_version)
workflow_key_from_labels-update_flow_id_labels def wf there named versioned =
    key-IsLabelled (labelled def wf) wf (labelled-IsLabelled def wf)
      (rw (labelled_namespace def wf) there) named versioned
    ∙ ap (λ ns. ok (key_of ns wf.document_name wf.document_version)) (labelled_namespace def wf)
