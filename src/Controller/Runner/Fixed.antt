-- ===== src/Controller/Runner/Fixed.antt =====
-- The variables of a durable runner that a resource cannot change.
use mathlib.Core.Path.{subst}
use mathlib.Core.List.{append-nil}
use logic_operator.Prelude.{
  String, ◌≡◌, refl, ap, ◌∙◌, sym, Option-cases, Bool, true, false, some, List, [], ◌∷◌, ◌++◌,
  keep_if, get_elem?, text_Eq, ◌==◌, arith, Bool-cases, inl, inr, same-path,
}
use logic_operator.Api.Application.{PersistenceOptionsSpec}
use logic_operator.Api.Container.{Container, EnvVar}
use logic_operator.Api.Runtime.{LogicFlowRuntime}
use logic_operator.Controller.Objects.{env_literal, env_field_ref}
use logic_operator.Controller.Workload.{
  DeploymentSpec, ContainerOption, apply_options, resolve_container, to_deployment_spec,
  to_pod_template, to_pod_spec, apply_pod_options,
}
use logic_operator.Controller.Quarkus.{with_flow_volume_mounts, durable_startup_probe}
use logic_operator.Controller.Variables.{
  without, is_immutable, is_source_path, with_flow_source_path, with_durable_env_vars, durable_env,
  timeout_env, has_lease_timeout,
}
use logic_operator.Controller.Runner.{
  deployment_of, container_options, shared_options, with_durability,
}

-- The variables of this name, in order
unfoldable pub settings : String → List EnvVar → List EnvVar
settings name envs = keep_if (λ (e : EnvVar). e.name == name) envs

settings-append :
    (name : String) (xs ys : List EnvVar)
    → settings name (xs ++ ys) ≡ settings name xs ++ settings name ys
unfolding settings
settings-append name [] ys = refl
settings-append name (x ∷ xs) ys = ground (arith, settings-append name xs ys)

-- A name that is left out has no variable left.
settings-without :
    (test : String → Bool) (name : String) (envs : List EnvVar)
    → test name ≡ true
    → settings name (without test envs) ≡ []
unfolding settings without
settings-without test name [] h = refl
settings-without test name (e ∷ envs) h = elim (Bool-cases (e.name == name)) [
  | inl p ↦ ground (
    arith,
    settings-without test name envs h,
    h,
    same-path e.name name p,
    ap test (same-path e.name name p),
  )
  | inr p ↦ ground (arith, settings-without test name envs h, p)
]

-- Any other name keeps its variables.
settings-keeps :
    (test : String → Bool) (name : String) (envs : List EnvVar)
    → test name ≡ false
    → settings name (without test envs) ≡ settings name envs
unfolding settings without
settings-keeps test name [] h = refl
settings-keeps test name (e ∷ envs) h = elim (Bool-cases (e.name == name)) [
  | inl p ↦ ground (
    arith,
    settings-keeps test name envs h,
    h,
    p,
    same-path e.name name p,
    ap test (same-path e.name name p),
  )
  | inr p ↦ ground (arith, settings-keeps test name envs h, p)
]

settings-with_durable_env_vars :
    (name pool : String) (c : Container)
    → is_immutable name ≡ true
    → settings name (with_durable_env_vars pool c).env
      ≡ settings name
          (durable_env pool ++ timeout_env (has_lease_timeout (without is_immutable c.env)))
unfolding with_durable_env_vars
settings-with_durable_env_vars name pool c h =
    rw
      (settings-append name (without is_immutable c.env)
        (durable_env pool ++ timeout_env (has_lease_timeout (without is_immutable c.env))))
      (rw (settings-without is_immutable name c.env h) refl)

abbrev source_path : String
source_path = "QUARKUS_FLOW_RUNNER_SOURCE_PATH"

abbrev leader_enabled : String
leader_enabled = "QUARKUS_FLOW_DURABLE_KUBE_LEASE_LEADER_ENABLED"

abbrev pool_name : String
pool_name = "QUARKUS_FLOW_DURABLE_KUBE_POOL_NAME"

-- The variables of the operator in a durable runner of the pool `pool`: each of these names has one
-- variable, and it is the operator's.
pub record IsFixed (pool : String) (envs : List EnvVar) : Type 0 where
  pub source : settings source_path envs ≡ env_literal source_path "/deployments/workflows" ∷ []
  pub leader : settings leader_enabled envs ≡ env_literal leader_enabled "false" ∷ []
  pub pool_of : settings pool_name envs ≡ env_literal pool_name pool ∷ []
  pub pod : settings "POD_NAME" envs ≡ env_field_ref "POD_NAME" "metadata.name" ∷ []
  pub namespace :
      settings "POD_NAMESPACE" envs ≡ env_field_ref "POD_NAMESPACE" "metadata.namespace" ∷ []

own_leader :
    (pool : String) (b : Bool)
    → settings leader_enabled (durable_env pool ++ timeout_env b)
      ≡ env_literal leader_enabled "false" ∷ []
unfolding settings env_literal env_field_ref
own_leader pool true = refl
own_leader pool false = refl

own_pool :
    (pool : String) (b : Bool)
    → settings pool_name (durable_env pool ++ timeout_env b) ≡ env_literal pool_name pool ∷ []
unfolding settings env_literal env_field_ref
own_pool pool true = refl
own_pool pool false = refl

own_pod :
    (pool : String) (b : Bool)
    → settings "POD_NAME" (durable_env pool ++ timeout_env b)
      ≡ env_field_ref "POD_NAME" "metadata.name" ∷ []
unfolding settings env_literal env_field_ref
own_pod pool true = refl
own_pod pool false = refl

own_namespace :
    (pool : String) (b : Bool)
    → settings "POD_NAMESPACE" (durable_env pool ++ timeout_env b)
      ≡ env_field_ref "POD_NAMESPACE" "metadata.namespace" ∷ []
unfolding settings env_literal env_field_ref
own_namespace pool true = refl
own_namespace pool false = refl

no_source :
    (pool : String) (b : Bool) → settings source_path (durable_env pool ++ timeout_env b) ≡ []
unfolding settings env_literal env_field_ref
no_source pool true = refl
no_source pool false = refl

own_source :
    settings source_path (env_literal source_path "/deployments/workflows" ∷ [])
    ≡ env_literal source_path "/deployments/workflows" ∷ []
unfolding settings env_literal
own_source = refl

settings_source :
    (pool : String) (c : Container)
    → settings source_path (with_durable_env_vars pool (with_flow_source_path c)).env
      ≡ env_literal source_path "/deployments/workflows" ∷ []
unfolding with_durable_env_vars with_flow_source_path is_immutable
settings_source pool c =
    let mine : List EnvVar = env_literal source_path "/deployments/workflows" ∷ [] in
    let before = without is_source_path c.env ++ mine in
    let b = has_lease_timeout (without is_immutable before) in
    settings-append source_path (without is_immutable before) (durable_env pool ++ timeout_env b)
    ∙ ap (λ (r : List EnvVar). settings source_path (without is_immutable before) ++ r)
        (no_source pool b)
    ∙ append-nil (settings source_path (without is_immutable before))
    ∙ settings-keeps is_immutable source_path before refl
    ∙ settings-append source_path (without is_source_path c.env) mine
    ∙ ap (λ (r : List EnvVar). r ++ settings source_path mine)
        (settings-without is_source_path source_path c.env refl)
    ∙ own_source

-- The last options of a durable runner
fixed :
    (pool : String) (c : Container) (names : List String)
    → IsFixed pool
        (durable_startup_probe (
          with_durable_env_vars pool (with_flow_volume_mounts names (with_flow_source_path c)))).env
unfolding durable_startup_probe with_flow_volume_mounts is_immutable with_flow_source_path
    with_durable_env_vars
fixed pool c names =
    let x = with_flow_volume_mounts names (with_flow_source_path c) in
    let b = has_lease_timeout (without is_immutable x.env) in
    record {
      source = settings_source pool c;
      leader = settings-with_durable_env_vars leader_enabled pool x refl ∙ own_leader pool b;
      pool_of = settings-with_durable_env_vars pool_name pool x refl ∙ own_pool pool b;
      pod = settings-with_durable_env_vars "POD_NAME" pool x refl ∙ own_pod pool b;
      namespace = settings-with_durable_env_vars "POD_NAMESPACE" pool x refl ∙ own_namespace pool b;
    }

-- What a durable runtime adds to the Deployment leaves the containers.
with_durability-containers :
    (rt : LogicFlowRuntime) (spec : DeploymentSpec)
    → (with_durability rt spec).template.pod.containers ≡ spec.template.pod.containers
with_durability-containers rt spec = elim (Option-cases rt.spec.persistence) [
  | inl e ↦ rw (with_durability, e) refl
  | inr (p, e) ↦ rw (with_durability, e) refl
]

-- The main container of the Deployment of a runtime
pub deployment_of-main :
    (version : String) (rt : LogicFlowRuntime) (names : List String)
    → get_elem? (deployment_of version rt names).spec.template.pod.containers 0
      ≡ some (
          apply_options
            (container_options version rt names)
            (resolve_container "logic-runner" rt.spec.application))
unfolding deployment_of to_deployment_spec to_pod_template to_pod_spec apply_pod_options
deployment_of-main version rt names =
    ap (λ (cs : List Container). get_elem? cs 0) (with_durability-containers rt _)

durable_options :
    (version : String) (rt : LogicFlowRuntime) (names : List String) (p : PersistenceOptionsSpec)
    → rt.spec.persistence ≡ some p
    → container_options version rt names
      ≡ shared_options version rt names
        ++ (with_durable_env_vars rt.name ∷ durable_startup_probe ∷ [])
durable_options version rt names p h = ground (arith, h)

-- The main container of the Deployment of a runtime with persistence, the first of its pod, has
-- exactly one variable of each name that IsFixed lists, the operator's, whatever variables the
-- resource sets.
pub deployment_of-IsFixed :
    (version : String) (rt : LogicFlowRuntime) (names : List String) (p : PersistenceOptionsSpec)
    → rt.spec.persistence ≡ some p
    → (c : Container) × (get_elem? (deployment_of version rt names).spec.template.pod.containers 0
        ≡ some c)
      × IsFixed rt.name c.env
unfolding apply_options
deployment_of-IsFixed version rt names p h = (
  apply_options (container_options version rt names)
      (resolve_container "logic-runner" rt.spec.application),
  deployment_of-main version rt names,
  subst
      (λ (options : List ContainerOption).
        IsFixed rt.name
          (apply_options options (resolve_container "logic-runner" rt.spec.application)).env)
      (sym (durable_options version rt names p h)) (fixed rt.name _ names),
)
