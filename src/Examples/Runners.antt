-- ===== src/Examples/Runners.antt =====
-- The theorems on the Deployment and the status of a runtime, at work.
use logic_operator.Prelude.{
  String, ◌≡◌, refl, ◌≢◌, some, List, [], ◌∷◌, ok, err, get_elem?, In, inl, arith, text_Eq,
}
use logic_operator.Api.Conditions.{set_condition, condition_true, ready, derive_phase}
use logic_operator.Api.Conditions.Reference.{reference_api}
use logic_operator.Api.Conditions.Update.{upsert}
use logic_operator.Api.Container.{Container}
use logic_operator.Api.Runtime.{LogicFlowRuntime}
use logic_operator.Admission.Runtime.{validate_runner_image}
use logic_operator.Controller.Definition.{config_map_of, ConfigMap}
use logic_operator.Controller.Pool.{DeploymentCondition, PoolServer}
use logic_operator.Controller.Runner.{deployment_of}
use logic_operator.Controller.Runner.Fixed.{IsFixed, deployment_of-IsFixed}
use logic_operator.Controller.Runner.Image.{deployment_of-image}
use logic_operator.Controller.Runtime.{RuntimeServer, observed_status}
use logic_operator.Controller.Runtime.Ready.{IsRunning, observed_status-IsRunning}
use logic_operator.Controller.Status.{
  update_status_deployment, update_status_svc, update_status_leases, conditions_loop,
  step_condition, definitions_from_config_maps, map_config_map_to_runtime,
}
use logic_operator.Controller.Status.Listed.{definitions-config_map_of}
use logic_operator.Examples.Admissions.{order, runtime, runtime_admitted}
use logic_operator.Examples.Pools.{Leases, server, deployment, durable, persistence}
use logic_operator.Examples.Reconciles.{flow, named}

deployment_of-IsFixed_example :
    (c : Container) × (get_elem?
        (deployment_of "1.0" durable ("lfd-order" ∷ [])).spec.template.pod.containers
        0
      ≡ some c)
    × IsFixed "runner" c.env
deployment_of-IsFixed_example =
    deployment_of-IsFixed "1.0" durable ("lfd-order" ∷ []) persistence refl

deployment_of-image_example :
    (c : Container) × (image : String) × (get_elem?
        (deployment_of "1.0" runtime []).spec.template.pod.containers
        0
      ≡ some c)
    × (c.image ≡ some image)
    × (validate_runner_image image runtime.spec.persistence ≡ ok tt)
deployment_of-image_example = deployment_of-image "1.0" runtime [] runtime_admitted refl refl

referred : order.spec.runtime_ref ≢ ""
referred p = ground (arith, p, text_Eq.same_iff order.spec.runtime_ref "")

abbrev listed : List ConfigMap
listed = config_map_of order flow "document: {}" ∷ []

definitions-config_map_of_example :
    (map_config_map_to_runtime (config_map_of order flow "document: {}") ≡ ("runner", "shop") ∷ [])
    × In (record { name = "order"; version = "1.0" }) (definitions_from_config_maps listed)
definitions-config_map_of_example =
    definitions-config_map_of order flow "document: {}" listed named referred (inl refl)

-- The Deployment has become available.
abbrev available : DeploymentCondition
available = record {
  kind = "Available";
  status = condition_true;
  reason = "MinimumReplicasAvailable";
  message = "";
}

abbrev pool_server : PoolServer Leases
pool_server = record server {
  get_deployment = λ w namespace name. ok (record deployment { conditions = available ∷ [] });
}

abbrev runtime_server : RuntimeServer Leases
runtime_server = record {
  pool = pool_server;
  get_runtime = λ w namespace name. ok runtime;
  list_config_maps = λ w namespace name. ok listed;
  get_service = λ w namespace name. ok tt;
  apply_deployment = λ w d. ok w;
  apply_service = λ w s. ok w;
  write_status = λ w rt. ok w;
}

observed :
    (after : LogicFlowRuntime) × (observed_status reference_api runtime_server [] runtime listed
      ≡ ok after)
    × (after.status.phase ≡ ready)
unfolding observed_status update_status_deployment update_status_svc update_status_leases
    conditions_loop step_condition set_condition upsert derive_phase
observed = (
  elim (observed_status reference_api runtime_server [] runtime listed) [
    | ok after ↦ after
    | err message ↦ runtime
  ],
  refl,
  refl,
)

observed_status-IsRunning_example : IsRunning runtime_server [] runtime
observed_status-IsRunning_example =
    observed_status-IsRunning reference_api runtime_server [] runtime observed.0 listed observed.1
      observed.2
