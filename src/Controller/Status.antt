-- ===== src/Controller/Status.antt =====
-- The status of a LogicFlowRuntime: updateStatus of internal/controller/logicflowruntime_controller.go
-- and what it calls, by the answers of the API server.
pub mod Ready
pub mod Listed
use logic_operator.Prelude.{
  ℕ, String, none, some, List, [], ◌∷◌, map, Outcome, ok, err, ◌&&◌, text_Eq, ◌==◌, if◌then◌else◌,
  leb, length,
}
use logic_operator.Prelude.Assoc.{get}
use logic_operator.Prelude.Text.{sprintf, show_number}
use logic_operator.Api.Client.{GetError, not_found, other_error}
use logic_operator.Api.Conditions.{
  ConditionsApi, Status, condition_true, condition_false, condition_unknown, set_condition,
  derive_phase, is_false,
}
use logic_operator.Api.Definition.{label_runtime_ref, label_workflow_name, label_workflow_version}
use logic_operator.Api.Runtime.{LogicFlowRuntime, RuntimeDefinitionStatus}
use logic_operator.Controller.Workload.{effective_replicas}
use logic_operator.Controller.Definition.{ConfigMap}
use logic_operator.Controller.Pool.{Deployment, DeploymentCondition, Lease}

-- The names of the ConfigMaps, for configMapRefs too
unfoldable pub config_map_refs : List ConfigMap → List String
config_map_refs config_maps = map (λ (cm : ConfigMap). cm.name) config_maps

abbrev pub label_of : ConfigMap → String → String
label_of cm key = elim (get key cm.labels) [ none ↦ "" | some value ↦ value ]

-- definitionsFromConfigMaps
unfoldable pub definitions_from_config_maps : List ConfigMap → List RuntimeDefinitionStatus
definitions_from_config_maps [] = []
definitions_from_config_maps (cm ∷ config_maps) =
    let rest = definitions_from_config_maps config_maps in
    if label_of cm label_workflow_name == ""
    then rest
    else record {
      name = label_of cm label_workflow_name;
      version = label_of cm label_workflow_version;
    }
      ∷ rest

-- mapConfigMapToRuntime: the name and the namespace of the runtime to reconcile
unfoldable pub map_config_map_to_runtime : ConfigMap → List (String × String)
map_config_map_to_runtime cm =
    if label_of cm label_runtime_ref == ""
    then []
    else (label_of cm label_runtime_ref, cm.namespace) ∷ []

-- The first lines of updateStatus
abbrev pub with_refs : LogicFlowRuntime → List ConfigMap → LogicFlowRuntime
with_refs rt config_maps = record rt {
  status = record rt.status {
    observed_generation = rt.generation;
    deployment_ref = rt.name;
    service_ref = rt.name;
    selector = sprintf ("app.kubernetes.io/name=" ∷ rt.name ∷ []);
    config_map_refs = config_map_refs config_maps;
    definitions = definitions_from_config_maps config_maps;
  };
}

abbrev pub with_phase : LogicFlowRuntime → LogicFlowRuntime
with_phase rt = record rt {
  status = record rt.status { phase = derive_phase rt.status.conditions rt.status.ready_replicas };
}

abbrev pub with_counts : LogicFlowRuntime → ℕ → ℕ → LogicFlowRuntime
with_counts rt ready replicas = record rt {
  status = record rt.status { ready_replicas = ready; replicas = replicas };
}

module _ (api : ConditionsApi) where
  abbrev pub set : LogicFlowRuntime → String → Status → String → String → LogicFlowRuntime
  set rt kind status reason message = record rt {
    status = record rt.status {
      conditions = set_condition api rt.status.conditions kind status rt.generation reason message;
    };
  }

  -- What one condition of the Deployment says of the condition DeploymentAvailable
  unfoldable pub step_condition : LogicFlowRuntime → DeploymentCondition → LogicFlowRuntime
  step_condition rt c =
      if c.kind == "Available"
      then elim c.status [
        | condition_true ↦ set rt "DeploymentAvailable" condition_true c.reason c.message
        | condition_false ↦ set rt "DeploymentAvailable" condition_false c.reason c.message
        | condition_unknown ↦ rt
      ]
      else if c.kind == "Progressing"
          && (is_false c.status && c.reason == "ProgressDeadlineExceeded")
      then set rt "DeploymentAvailable" condition_false c.reason c.message
      else rt

  unfoldable pub conditions_loop : LogicFlowRuntime → List DeploymentCondition → LogicFlowRuntime
  unfolding step_condition
  conditions_loop rt [] = rt
  conditions_loop rt (c ∷ conditions) = conditions_loop (step_condition rt c) conditions

  -- updateStatusDeployment, by what the server answers
  unfoldable pub update_status_deployment :
      Outcome GetError Deployment → LogicFlowRuntime → Outcome String LogicFlowRuntime
  unfolding conditions_loop
  update_status_deployment (err not_found) rt =
      ok (set (with_counts rt 0 0) "DeploymentAvailable" condition_false "DeploymentNotFound" "")
  update_status_deployment (err (other_error message)) rt = err message
  update_status_deployment (ok d) rt = ok (
      conditions_loop
        (set (with_counts rt d.ready_replicas d.replicas) "DeploymentAvailable" condition_false
          "DeploymentProgressing" "")
        d.conditions)

  -- updateStatusSvc, by what the server answers
  unfoldable pub update_status_svc :
      Outcome GetError (Unit {0}) → LogicFlowRuntime → Outcome String LogicFlowRuntime
  update_status_svc (err not_found) rt =
      ok (set rt "ServiceReady" condition_false "ServiceNotFound" "")
  update_status_svc (err (other_error message)) rt = err message
  update_status_svc (ok _) rt = ok (set rt "ServiceReady" condition_true "Ready" "")

  -- The condition LeaseReady, by the number of leases and the number that is desired
  unfoldable pub lease_condition : ℕ → ℕ → LogicFlowRuntime → LogicFlowRuntime
  unfolding sprintf
  lease_condition count desired rt =
      let counted = record rt { status = record rt.status { lease_replicas = desired } } in
      if leb desired count
      then set counted "LeaseReady" condition_true "Ready" ""
      else set counted "LeaseReady" condition_false "LeaseNotFound"
          (sprintf (show_number count ∷ " of " ∷ show_number desired ∷ " leases ready" ∷ []))

  -- updateStatusLeases, by what the server lists
  unfoldable pub update_status_leases :
      Outcome String (List Lease) → LogicFlowRuntime → Outcome String LogicFlowRuntime
  unfolding lease_condition effective_replicas
  update_status_leases listed rt = elim rt.spec.persistence [
    | none ↦ ok rt
    | some _ ↦ elim listed [
      | err message ↦ err message
      | ok leases ↦ ok (lease_condition (length leases) (effective_replicas rt.spec.application) rt)
    ]
  ]
