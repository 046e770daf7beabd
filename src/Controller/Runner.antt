-- ===== src/Controller/Runner.antt =====
-- applyDeployment of internal/controller/logicflowruntime_controller.go, with the strategy and the
-- volumes of logicflowruntime_objects.go.
pub mod Fixed
pub mod Image
use logic_operator.Prelude.{
  ℕ, String, none, some, List, [], ◌∷◌, ◌++◌, map, text_Eq, if◌then◌else◌, leb,
}
use logic_operator.Prelude.Assoc.{Assoc}
use logic_operator.Api.Container.{Volume, config_map_volume}
use logic_operator.Api.Runtime.{LogicFlowRuntime}
use logic_operator.Controller.Objects.{Owner, owner_ref, child_labels, selector_labels}
use logic_operator.Controller.Workload.{
  ContainerOption, DeploymentSpec, Strategy, recreate, rolling_update, to_deployment_spec,
  effective_replicas, Pod,
}
use logic_operator.Controller.Quarkus.{
  default_runner_image, default_quarkus_probes, durable_startup_probe, with_flow_volume_mounts,
}
use logic_operator.Controller.Variables.{
  with_quarkus_persistence_env_vars, with_security_env_vars, with_structured_logging_env_vars,
  with_flow_source_path, with_durable_env_vars,
}
use logic_operator.Controller.Pool.{object_of}

-- DeploymentApplyConfiguration
pub record DeploymentApply : Type 0 where
  pub name : String
  pub namespace : String
  pub labels : Assoc String String
  pub owner : Owner
  pub spec : DeploymentSpec

-- durableDeploymentStrategy
unfoldable pub durable_deployment_strategy : ℕ → Strategy
durable_deployment_strategy replicas = if leb replicas 1 then recreate else rolling_update 1 1

-- FlowVolumes
unfoldable pub flow_volumes : List String → List Volume
flow_volumes names = map (λ name. config_map_volume name name) names

-- The options of the main container in applyDeployment, before those of a durable runtime
abbrev pub shared_options : String → LogicFlowRuntime → List String → List ContainerOption
shared_options version rt names =
    default_runner_image version rt.spec.persistence
    ∷ with_quarkus_persistence_env_vars rt.spec.persistence
    ∷ with_security_env_vars rt.spec.security
    ∷ with_structured_logging_env_vars rt.spec.logging
    ∷ default_quarkus_probes
    ∷ with_flow_source_path
    ∷ with_flow_volume_mounts names
    ∷ []

abbrev pub container_options : String → LogicFlowRuntime → List String → List ContainerOption
container_options version rt names = elim rt.spec.persistence [
  | none ↦ shared_options version rt names
  | some _ ↦
      shared_options version rt names
      ++ (with_durable_env_vars rt.name ∷ durable_startup_probe ∷ [])
]

abbrev pub change_pod : (Pod → Pod) → DeploymentSpec → DeploymentSpec
change_pod f spec = record spec { template = record spec.template { pod = f spec.template.pod } }

-- What applyDeployment adds for a durable runtime
abbrev pub with_durability : LogicFlowRuntime → DeploymentSpec → DeploymentSpec
with_durability rt spec = elim rt.spec.persistence [
  | none ↦ spec
  | some _ ↦
      record (change_pod (λ (pod : Pod). record pod { service_account_name = some rt.name }) spec) {
        strategy = some (durable_deployment_strategy (effective_replicas rt.spec.application));
      }
]

-- The Deployment of applyDeployment, for the ConfigMaps with these names
unfoldable pub deployment_of : String → LogicFlowRuntime → List String → DeploymentApply
unfolding to_deployment_spec child_labels selector_labels owner_ref flow_volumes
    durable_deployment_strategy effective_replicas
deployment_of version rt names = record {
  name = rt.name;
  namespace = rt.namespace;
  labels = child_labels (object_of rt);
  owner = owner_ref (object_of rt) "LogicFlowRuntime";
  spec = with_durability rt (
      change_pod (λ (pod : Pod). record pod { volumes = pod.volumes ++ flow_volumes names })
        (to_deployment_spec "logic-runner" rt.spec.application (child_labels (object_of rt))
          (selector_labels rt.name) (container_options version rt names)));
}
