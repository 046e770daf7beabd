-- ===== src/Api/Container.antt =====
-- api/v1/podtemplate_types.go: containers and pods as a resource writes them. A value that is only
-- copied into the pod (an affinity, a toleration, a lifecycle) is kept as a text. A nil list and an
-- empty one are the same list here: the code appends either one without effect.
use logic_operator.Prelude.{ℕ, String, Bool, Option, List}
use logic_operator.Prelude.Assoc.{Assoc}

-- corev1.EnvVar: a value, a key of a Secret, a field of the pod or something else.
pub data EnvSource : Type 0 where
  literal field_path other_source : String → EnvSource
  -- name of the Secret, key
  secret_key : String → String → EnvSource

pub record EnvVar : Type 0 where
  pub name : String
  pub source : EnvSource

pub record VolumeMount : Type 0 where
  pub name : String
  pub mount_path : String
  pub read_only : Bool

-- corev1.Probe with an HTTP action
pub record Probe : Type 0 where
  pub path : String
  pub port : ℕ
  pub initial_delay : ℕ
  pub period : ℕ
  pub timeout : ℕ
  pub failure_threshold : ℕ

-- corev1.ResourceRequirements: each list is a text here, `none` for nil.
pub record Resources : Type 0 where
  pub requests : Option String
  pub limits : Option String

-- Either the restricted context of the operator or one that a resource gives
pub data SecurityContext : Type 0 where
  restricted : SecurityContext
  custom_context : String → SecurityContext

pub record ContainerSpec : Type 0 where
  pub image : String
  pub image_pull_policy : String
  pub command : List String
  pub args : List String
  pub env : List EnvVar
  pub env_from : List String
  pub resources : Resources
  pub volume_mounts : List VolumeMount
  pub security_context : Option SecurityContext
  pub liveness_probe : Option Probe
  pub readiness_probe : Option Probe
  pub startup_probe : Option Probe
  pub lifecycle : Option String
  pub working_dir : String

-- ContainerApplyConfiguration, also of a sidecar
pub record Container : Type 0 where
  pub name : String
  pub image : Option String
  pub image_pull_policy : Option String
  pub command : List String
  pub args : List String
  pub env : List EnvVar
  pub env_from : List String
  pub resources : Option Resources
  pub volume_mounts : List VolumeMount
  pub security_context : Option SecurityContext
  pub liveness_probe : Option Probe
  pub readiness_probe : Option Probe
  pub startup_probe : Option Probe
  pub lifecycle : Option String
  pub working_dir : Option String

-- corev1.Volume: one that shows a ConfigMap, or another
pub data Volume : Type 0 where
  -- name of the volume, name of the ConfigMap
  config_map_volume : String → String → Volume
  other_volume : String → Volume

pub record PodSpec : Type 0 where
  pub node_selector : Assoc String String
  pub affinity : Option String
  pub tolerations : List String
  pub topology_spread_constraints : List String
  pub priority_class_name : String
  pub scheduler_name : String
  pub security_context : Option SecurityContext
  pub service_account_name : String
  pub image_pull_secrets : List String
  pub volumes : List Volume
  pub init_containers : List Container
  pub containers : List Container
  pub host_aliases : List String
  pub restart_policy : String
  pub termination_grace_period_seconds : Option ℕ
  pub dns_policy : String
  pub dns_config : Option String

pub record PodTemplateMetadata : Type 0 where
  pub labels : Assoc String String
  pub annotations : Assoc String String

-- PodTemplateSpec, with PodSpec in it
pub record PodTemplateSpec : Type 0 where
  pub metadata : Option PodTemplateMetadata
  pub container : ContainerSpec
  pub pod : PodSpec
  pub replicas : Option ℕ

-- The zero values
abbrev pub no_container : ContainerSpec
no_container = record {
  image = "";
  image_pull_policy = "";
  command = List.[];
  args = List.[];
  env = List.[];
  env_from = List.[];
  resources = record { requests = Option.none; limits = Option.none };
  volume_mounts = List.[];
  security_context = Option.none;
  liveness_probe = Option.none;
  readiness_probe = Option.none;
  startup_probe = Option.none;
  lifecycle = Option.none;
  working_dir = "";
}

abbrev pub no_pod : PodSpec
no_pod = record {
  node_selector = List.[];
  affinity = Option.none;
  tolerations = List.[];
  topology_spread_constraints = List.[];
  priority_class_name = "";
  scheduler_name = "";
  security_context = Option.none;
  service_account_name = "";
  image_pull_secrets = List.[];
  volumes = List.[];
  init_containers = List.[];
  containers = List.[];
  host_aliases = List.[];
  restart_policy = "";
  termination_grace_period_seconds = Option.none;
  dns_policy = "";
  dns_config = Option.none;
}
