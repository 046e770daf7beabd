-- ===== src/Controller/Quarkus.antt =====
-- internal/controller/quarkus_config.go: the Service, the image, the mounts and the
-- probes of a Quarkus Flow runner. Its environment variables are in Controller.Variables. The version of the runner, which the linker sets, is the parameter `version`.
use logic_operator.Prelude.{
  ℕ, String, Bool, true, false, Option, none, some, List, [], ◌∷◌, ◌++◌, not, map, text_Eq,
  number_Eq, ◌==◌, if◌then◌else◌,
}
use logic_operator.Prelude.Assoc.{Assoc}
use logic_operator.Prelude.Text.{sprintf}
use logic_operator.Api.Container.{Probe}
use logic_operator.Api.Application.{PersistenceOptionsSpec}
use logic_operator.Admission.Runtime.{has_persistence}
use logic_operator.Controller.Objects.{Object, Owner, selector_labels, owner_ref, child_labels}
use logic_operator.Controller.Workload.{ContainerOption}

-- The Service of a workload: one TCP port named http
pub record Service : Type 0 where
  pub name : String
  pub namespace : String
  pub labels : Assoc String String
  pub owner : Owner
  pub selector : Assoc String String
  pub port : ℕ
  pub target_port : ℕ

-- QuarkusServiceWithSelectorAndName
unfoldable pub quarkus_service_with_selector_and_name :
    Object → String → Assoc String String → String → Service
unfolding owner_ref child_labels
quarkus_service_with_selector_and_name owner kind selector service = record {
  name = service;
  namespace = owner.namespace;
  labels = child_labels owner;
  owner = owner_ref owner kind;
  selector = selector;
  port = 80;
  target_port = 8080;
}

-- QuarkusServiceWithSelector
unfoldable pub quarkus_service_with_selector : Object → String → Assoc String String → Service
unfolding quarkus_service_with_selector_and_name
quarkus_service_with_selector owner kind selector =
    quarkus_service_with_selector_and_name owner kind selector owner.name

-- QuarkusService
unfoldable pub quarkus_service : Object → String → Service
unfolding quarkus_service_with_selector selector_labels
quarkus_service owner kind = quarkus_service_with_selector owner kind (selector_labels owner.name)

abbrev pub or_else : String → String → String
or_else value default = if value == "" then default else value

-- runnerImage
unfoldable pub runner_image : String → String → String
unfolding sprintf
runner_image version variant =
    sprintf ("quay.io/quarkiverse/quarkus-flow-runner:" ∷ version ∷ "-" ∷ variant ∷ [])

abbrev pub has_image : Option String → Bool
has_image none = false
has_image (some image) = not (image == "")

-- DefaultRunnerImage
unfoldable pub default_runner_image : String → Option PersistenceOptionsSpec → ContainerOption
unfolding runner_image
default_runner_image version persistence c =
    if has_image c.image
    then c
    else if has_persistence persistence
    then record c { image = some (runner_image version "standard") }
    else record c { image = some (runner_image version "minimal") }

abbrev pub default_probe : Option Probe → Probe → Option Probe
default_probe none probe = some probe
default_probe (some probe) _ = some probe

abbrev pub health_probe : String → ℕ → ℕ → ℕ → Probe
health_probe path delay period failures = record {
  path = path;
  port = 8080;
  initial_delay = delay;
  period = period;
  timeout = 3;
  failure_threshold = failures;
}

-- DefaultQuarkusProbes
unfoldable pub default_quarkus_probes : ContainerOption
default_quarkus_probes c = record c {
  liveness_probe = default_probe c.liveness_probe (health_probe "/q/health/live" 30 10 3);
  readiness_probe = default_probe c.readiness_probe (health_probe "/q/health/ready" 10 5 3);
}

-- DurableStartupProbe
unfoldable pub durable_startup_probe : ContainerOption
durable_startup_probe c = record c {
  startup_probe = default_probe c.startup_probe (health_probe "/q/health/ready" 0 5 12);
}

-- WithFlowVolumeMounts, of the ConfigMaps with these names
unfoldable pub with_flow_volume_mounts : List String → ContainerOption
unfolding sprintf
with_flow_volume_mounts names c = record c {
  volume_mounts =
      c.volume_mounts
      ++ map
          (λ (name : String). record {
            name = name;
            mount_path = sprintf ("/deployments/workflows/" ∷ name ∷ []);
            read_only = true;
          })
          names;
}
