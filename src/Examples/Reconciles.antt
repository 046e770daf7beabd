-- ===== src/Examples/Reconciles.antt =====
-- The theorems on the reconciliation of definitions, at work.
use logic_operator.Prelude.{String, ◌≡◌, ◌≢◌, [], ◌∷◌, Outcome, ok, text_Eq, arith}
use logic_operator.Api.Definition.{
  LogicFlowDefinition, Workflow, label_runtime_ref, label_workflow_name, label_workflow_version,
  label_workflow_namespace,
}
use logic_operator.Gateway.Routing.Execution.{key_of}
use logic_operator.Gateway.Catalog.Build.{workflow_key_from_labels}
use logic_operator.Controller.Definition.{Server, ConfigMap, config_map_of}
use logic_operator.Controller.Definition.Labels.{
  labelled, workflow_key_from_labels-update_flow_id_labels,
}
use logic_operator.Examples.Data.{def_of}
use logic_operator.Examples.Admissions.{list, order}

abbrev pub flow : Workflow
flow = record {
  document_name = "order";
  document_version = "1.0";
  document_namespace = "default";
  body = "";
}

filled : order.namespace ≢ ""
filled p = ground (arith, p, text_Eq.same_iff order.namespace "")

pub named : flow.document_name ≢ ""
named p = ground (arith, p, text_Eq.same_iff flow.document_name "")

versioned : flow.document_version ≢ ""
versioned p = ground (arith, p, text_Eq.same_iff flow.document_version "")

workflow_key_from_labels-update_flow_id_labels_example :
    workflow_key_from_labels (labelled order flow) ≡ ok (key_of "shop" "order" "1.0")
workflow_key_from_labels-update_flow_id_labels_example =
    workflow_key_from_labels-update_flow_id_labels order flow filled named versioned

-- The first version, with all its labels
abbrev ready : LogicFlowDefinition
ready = record (def_of "order-v1" "1.0") {
  labels =
      (label_workflow_namespace, "shop")
      ∷ (label_workflow_name, "order")
      ∷ (label_workflow_version, "1.0")
      ∷ (label_runtime_ref, "runner")
      ∷ [];
}

abbrev to_yaml : Workflow → Outcome String String
to_yaml wf = ok wf.body

abbrev server : Server
server = record {
  fetch = λ namespace name. ok ready;
  patch = λ def. ok def;
  list = list;
  apply = λ cm. ok tt;
  fetch_runtime = λ namespace name. ok tt;
  write_status = λ def. ok tt;
}

abbrev config_map : ConfigMap
config_map = config_map_of ready flow "document: {}"
