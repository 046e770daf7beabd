-- ===== src/Controller/Workload.antt =====
-- internal/controller/application_objects.go: how the operator's workloads become a Deployment.
-- `With…` of a list appends and of a value sets, as the apply configurations of client-go do. The
-- conversion of a Kubernetes value to its apply configuration keeps the value, and a field of the
-- main container that only a resource can fill is copied.

use logic_operator.Prelude.{
  ℕ, String, ◌||◌, Option, none, some, List, [], ◌∷◌, ◌++◌, keep_if, not, text_Eq, ◌==◌,
  if◌then◌else◌, is_some,
}
use logic_operator.Prelude.Assoc.{Assoc}
use logic_operator.Api.Container.{
  Container, ContainerSpec, PodTemplateSpec, PodTemplateMetadata, SecurityContext, restricted,
  Volume, Resources, no_container, EnvVar,
}
use logic_operator.Api.Application.{ApplicationSpec}
use logic_operator.Controller.Objects.{merge_maps}

-- PodSpecApplyConfiguration
pub record Pod : Type 0 where
  pub containers : List Container
  pub security_context : Option SecurityContext
  pub node_selector : Assoc String String
  pub affinity : Option String
  pub tolerations : List String
  pub topology_spread_constraints : List String
  pub priority_class_name : Option String
  pub scheduler_name : Option String
  pub service_account_name : Option String
  pub image_pull_secrets : List String
  pub volumes : List Volume
  pub init_containers : List Container
  pub host_aliases : List String
  pub restart_policy : Option String
  pub termination_grace_period_seconds : Option ℕ
  pub dns_policy : Option String
  pub dns_config : Option String

pub record PodTemplate : Type 0 where
  pub labels : Assoc String String
  pub annotations : Assoc String String
  pub pod : Pod

-- DeploymentStrategy; a rolling update has the numbers that may be unavailable and in surplus.
pub data Strategy : Type 0 where
  recreate : Strategy
  rolling_update : ℕ → ℕ → Strategy

pub record DeploymentSpec : Type 0 where
  pub selector : Assoc String String
  pub template : PodTemplate
  pub replicas : Option ℕ
  pub strategy : Option Strategy

-- ContainerOption: what changes the main container before it is placed
abbrev pub ContainerOption : Type 0
ContainerOption = Container → Container

abbrev pub PodSpecOption : Type 0
PodSpecOption = Pod → Pod

-- A value that is not empty replaces the one before it.
abbrev pub set_text : String → Option String → Option String
set_text value old = if value == "" then old else some value

abbrev pub set_value : {A : Type 0} → Option A → Option A → Option A
set_value none old = old
set_value (some a) old = some a

abbrev pub set_resources : Resources → Option Resources → Option Resources
set_resources r old = if is_some r.requests || is_some r.limits then some r else old

-- WithEnvVars
unfoldable pub with_env_vars : List EnvVar → ContainerOption
with_env_vars envs c = record c { env = c.env ++ envs }

-- restrictedContainerSecurity and restrictedPodSecurity are both `restricted`.
abbrev pub named_container : String → Container
named_container name = record {
  name = name;
  image = none;
  image_pull_policy = none;
  command = [];
  args = [];
  env = [];
  env_from = [];
  resources = none;
  volume_mounts = [];
  security_context = some restricted;
  liveness_probe = none;
  readiness_probe = none;
  startup_probe = none;
  lifecycle = none;
  working_dir = none;
}

-- applyContainerFields
unfoldable pub apply_container_fields : Container → ContainerSpec → Container
apply_container_fields c cs = record {
  name = c.name;
  image = set_text cs.image c.image;
  image_pull_policy = set_text cs.image_pull_policy c.image_pull_policy;
  command = c.command ++ cs.command;
  args = c.args ++ cs.args;
  env = c.env ++ cs.env;
  env_from = c.env_from ++ cs.env_from;
  resources = set_resources cs.resources c.resources;
  volume_mounts = c.volume_mounts ++ cs.volume_mounts;
  security_context = set_value cs.security_context c.security_context;
  liveness_probe = set_value cs.liveness_probe c.liveness_probe;
  readiness_probe = set_value cs.readiness_probe c.readiness_probe;
  startup_probe = set_value cs.startup_probe c.startup_probe;
  lifecycle = set_value cs.lifecycle c.lifecycle;
  working_dir = set_text cs.working_dir c.working_dir;
}

-- The ContainerSpec that resolveContainerAC makes of the top-level fields
abbrev pub top_level : ApplicationSpec → ContainerSpec
top_level app = record no_container {
  image = app.image;
  image_pull_policy = app.image_pull_policy;
  resources = app.resources;
}

-- resolveContainerAC
unfoldable pub resolve_container : String → ApplicationSpec → Container
unfolding apply_container_fields
resolve_container name app =
    apply_container_fields
      (apply_container_fields (apply_container_fields (named_container name) (top_level app))
        app.container)
      app.pod_template.container

unfoldable pub apply_options : List ContainerOption → Container → Container
apply_options [] c = c
apply_options (option ∷ options) c = apply_options options (option c)

unfoldable pub apply_pod_options : List PodSpecOption → Pod → Pod
apply_pod_options [] pod = pod
apply_pod_options (option ∷ options) pod = apply_pod_options options (option pod)

-- filterSidecars
unfoldable pub filter_sidecars : List Container → String → List Container
filter_sidecars containers main = keep_if (λ (c : Container). not (c.name == main)) containers

-- toPodSpecAC
unfoldable pub to_pod_spec : PodTemplateSpec → Container → List PodSpecOption → Pod
unfolding filter_sidecars apply_pod_options
to_pod_spec pt main options = apply_pod_options options (record {
  containers = main ∷ filter_sidecars pt.pod.containers main.name;
  security_context = set_value pt.pod.security_context (some restricted);
  node_selector = pt.pod.node_selector;
  affinity = pt.pod.affinity;
  tolerations = pt.pod.tolerations;
  topology_spread_constraints = pt.pod.topology_spread_constraints;
  priority_class_name = set_text pt.pod.priority_class_name none;
  scheduler_name = set_text pt.pod.scheduler_name none;
  service_account_name = set_text pt.pod.service_account_name none;
  image_pull_secrets = pt.pod.image_pull_secrets;
  volumes = pt.pod.volumes;
  init_containers = pt.pod.init_containers;
  host_aliases = pt.pod.host_aliases;
  restart_policy = set_text pt.pod.restart_policy none;
  termination_grace_period_seconds = pt.pod.termination_grace_period_seconds;
  dns_policy = set_text pt.pod.dns_policy none;
  dns_config = pt.pod.dns_config;
})

abbrev pub template_labels : Assoc String String → Option PodTemplateMetadata → Assoc String String
template_labels labels none = merge_maps [] (labels ∷ [])
template_labels labels (some m) = merge_maps [] (labels ∷ m.labels ∷ [])

abbrev pub template_annotations : Option PodTemplateMetadata → Assoc String String
template_annotations none = []
template_annotations (some m) = m.annotations

-- toPodTemplateSpecACWithPodOpts
unfoldable pub to_pod_template_with_options :
    String
    → ApplicationSpec
    → Assoc String String
    → List ContainerOption
    → List PodSpecOption
    → PodTemplate
unfolding to_pod_spec resolve_container apply_options merge_maps
to_pod_template_with_options name app labels options pod_options = record {
  labels = template_labels labels app.pod_template.metadata;
  annotations = template_annotations app.pod_template.metadata;
  pod =
      to_pod_spec app.pod_template (apply_options options (resolve_container name app)) pod_options;
}

-- toPodTemplateSpecAC
unfoldable pub to_pod_template :
    String → ApplicationSpec → Assoc String String → List ContainerOption → PodTemplate
unfolding to_pod_spec resolve_container apply_options merge_maps
to_pod_template name app labels options = record {
  labels = template_labels labels app.pod_template.metadata;
  annotations = template_annotations app.pod_template.metadata;
  pod = to_pod_spec app.pod_template (apply_options options (resolve_container name app)) [];
}

-- ToDeploymentSpec
unfoldable pub to_deployment_spec :
    String
    → ApplicationSpec
    → Assoc String String
    → Assoc String String
    → List ContainerOption
    → DeploymentSpec
unfolding to_pod_template
to_deployment_spec name app pod_labels selector options = record {
  selector = selector;
  template = to_pod_template name app pod_labels options;
  replicas = set_value app.pod_template.replicas app.replicas;
  strategy = none;
}

-- effectiveReplicas
unfoldable pub effective_replicas : ApplicationSpec → ℕ
effective_replicas app = elim app.pod_template.replicas [
  | some n ↦ n
  | none ↦ elim app.replicas [ some n ↦ n | none ↦ 1 ]
]

-- WithoutRestrictedSecurity
unfoldable pub without_restricted_security : PodSpecOption
without_restricted_security pod = record pod { security_context = none }
