-- ===== src/Controller/Runtime.antt =====
-- LogicFlowRuntimeReconciler of internal/controller/logicflowruntime_controller.go: `Reconcile`. The
-- state of the cluster is `W`; what the API server does to it is the parameter `server`.
-- `RetryOnConflict` belongs to `write_status`.
pub mod Ready
use logic_operator.Prelude.{String, List, Outcome, ok, err, ◌>>=◌, text_Eq}
use logic_operator.Prelude.Text.{sprintf}
use logic_operator.Prelude.Sort.{sort, text_less}
use logic_operator.Api.Client.{GetError, not_found, other_error}
use logic_operator.Api.Conditions.{ConditionsApi, derive_phase}
use logic_operator.Api.Runtime.{LogicFlowRuntime}
use logic_operator.Admission.Runtime.{apply_logic_flow_runtime_defaults}
use logic_operator.Controller.Quarkus.{Service, quarkus_service}
use logic_operator.Controller.Definition.{ConfigMap}
use logic_operator.Controller.Pool.{
  Step, PoolServer, object_of, reconcile_leases, reconcile_pod_rbac,
}
use logic_operator.Controller.Runner.{DeploymentApply, deployment_of}
use logic_operator.Controller.Status.{
  config_map_refs, definitions_from_config_maps, update_status_deployment, update_status_svc,
  update_status_leases, with_refs, with_phase,
}

pub record RuntimeServer (W : Type 0) : Type 0 where
  pub pool : PoolServer W
  pub get_runtime : W → String → String → Outcome GetError LogicFlowRuntime
  -- by namespace and value of the label that names the runtime
  pub list_config_maps : W → String → String → Outcome String (List ConfigMap)
  pub get_service : W → String → String → Outcome GetError (Unit {0})
  pub apply_deployment : W → DeploymentApply → Step W
  pub apply_service : W → Service → Step W
  pub write_status : W → LogicFlowRuntime → Step W

module _ (api : ConditionsApi) {W : Type 0} (server : RuntimeServer W) where
  -- updateStatus, before the write
  unfoldable pub observed_status :
      W → LogicFlowRuntime → List ConfigMap → Outcome String LogicFlowRuntime
  unfolding update_status_deployment update_status_svc update_status_leases
      definitions_from_config_maps config_map_refs sprintf derive_phase
  observed_status w rt config_maps =
      update_status_deployment api (server.pool.get_deployment w rt.namespace rt.name)
        (with_refs rt config_maps)
      >>= λ deployed.
          update_status_svc api (server.get_service w rt.namespace rt.name) deployed >>= λ served.
          update_status_leases api (server.pool.list_leases w rt.namespace rt.name) served
          >>= λ leased. ok (with_phase leased)

  -- updateStatus
  unfoldable pub update_status : LogicFlowRuntime → List ConfigMap → W → Step W
  unfolding observed_status
  update_status rt config_maps w = elim (observed_status w rt config_maps) [
    | err message ↦ err (message, w)
    | ok observed ↦ server.write_status w observed
  ]

  -- listConfigMaps
  unfoldable pub list_config_maps : W → LogicFlowRuntime → Outcome String (List ConfigMap)
  unfolding sort text_less
  list_config_maps w rt = server.list_config_maps w rt.namespace rt.name >>= λ items.
      ok (sort (λ (a b : ConfigMap). text_less a.name b.name) items)

  -- The part of `Reconcile` after the ConfigMaps are listed
  unfoldable pub reconcile_listed : String → LogicFlowRuntime → List ConfigMap → W → Step W
  unfolding deployment_of reconcile_pod_rbac reconcile_leases quarkus_service update_status
      config_map_refs
  reconcile_listed version rt config_maps w =
      server.apply_deployment w (deployment_of version rt (config_map_refs config_maps))
      >>= reconcile_pod_rbac server.pool rt
      >>= reconcile_leases server.pool rt
      >>= (λ after. server.apply_service after (quarkus_service (object_of rt) "LogicFlowRuntime"))
      >>= update_status rt config_maps

  -- Reconcile
  unfoldable pub reconcile_runtime : String → String → String → W → Step W
  unfolding reconcile_listed list_config_maps apply_logic_flow_runtime_defaults
  reconcile_runtime version namespace name w = elim (server.get_runtime w namespace name) [
    | err not_found ↦ ok w
    | err (other_error message) ↦ err (message, w)
    | ok found ↦
        let rt = apply_logic_flow_runtime_defaults found in
        elim (list_config_maps w rt) [
          | err message ↦ err (message, w)
          | ok config_maps ↦ reconcile_listed version rt config_maps w
        ]
  ]
