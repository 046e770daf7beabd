-- ===== src/Gateway/Routing.antt =====
-- workflow-gateway/internal/routing: workflow keys, the endpoint and the instance store, and the
-- resolver. The stores' locks make each method one step, which is a function here.
pub mod Execution
pub mod Instance
use logic_operator.Prelude.{
  ℕ, String, ◌≡◌, ◌↔◌, Bool, false, ◌&&◌, Option, none, some, List, [], ◌∷◌, Eq, text_Eq, ◌==◌,
  arith, if◌then◌else◌, Outcome, ok, err,
}
use logic_operator.Prelude.Assoc.{Assoc, get, put, remove, put_all}
use logic_operator.Prelude.Text.{sprintf, show_number}

-- key.go
abbrev pub Url : Type 0
Url = String

pub record WorkflowKey : Type 0 where
  pub namespace : String
  pub name : String
  pub version : String

abbrev key_same : WorkflowKey → WorkflowKey → Bool
key_same a b = a.namespace == b.namespace && (a.name == b.name && a.version == b.version)

pub key_same_iff : (a b : WorkflowKey) → (key_same a b ≡ Bool.true) ↔ (a ≡ b)
key_same_iff a b = ground (
  arith,
  text_Eq.same_iff a.namespace b.namespace,
  text_Eq.same_iff a.name b.name,
  text_Eq.same_iff a.version b.version,
)

instance abbrev pub key_Eq : Eq WorkflowKey
key_Eq = record { same = key_same; same_iff = key_same_iff }

abbrev pub Endpoints : Type 0
Endpoints = Assoc WorkflowKey Url

-- ExecutionEndpointStore.LookupLatest. The order of the loop over the map is the argument.
unfoldable pub lookup_latest : List (WorkflowKey × Url) → String → String → Option Url
lookup_latest [] namespace name = none
lookup_latest ((key, url) ∷ entries) namespace name =
    if key.namespace == namespace && key.name == name
    then some url
    else lookup_latest entries namespace name

-- ExecutionEndpointStore.Replace: the copying loop over the new map's entries.
unfoldable pub replace : List (WorkflowKey × Url) → Endpoints
replace entries = put_all [] entries

pub data DestinationKind : Type 0 where
  destination_service destination_pod : DestinationKind

pub record Destination : Type 0 where
  pub url : Url
  pub kind : DestinationKind

-- ErrWorkflowNotFound, the one error of the resolver
pub data RoutingError : Type 0 where
  workflow_not_found : RoutingError

-- The interface PodResolver: the pod that holds a lease, `none` where `found` is false.
abbrev pub PodResolver : Type 0 → Type 0
PodResolver E = String → String → Outcome E (Option String)

-- Resolver, with its two stores
pub record Resolver : Type 0 where
  pub endpoints : Endpoints
  pub instances : Assoc String String
  pub runner_port : ℕ

-- UpdateExecutionEndpoints
unfoldable pub update_execution_endpoints : Resolver → List (WorkflowKey × Url) → Resolver
unfolding replace
update_execution_endpoints r entries = record r { endpoints = replace entries }

-- ResolveExecution; `range` is the order in which a loop meets the entries of a map.
unfoldable pub resolve_execution :
    (Endpoints → List (WorkflowKey × Url))
    → Resolver
    → String
    → String
    → String
    → Outcome RoutingError Url
resolve_execution range r namespace name version =
    if version == ""
    then elim (lookup_latest (range r.endpoints) namespace name) [
      | some url ↦ ok url
      | none ↦ err workflow_not_found
    ]
    else elim (get (record { namespace = namespace; name = name; version = version }) r.endpoints) [
      | some url ↦ ok url
      | none ↦ err workflow_not_found
    ]

-- The URL of a runner pod
unfoldable pub pod_url : String → ℕ → Url
pod_url pod port = sprintf ("http://" ∷ pod ∷ ":" ∷ show_number port ∷ [])

module _ {E : Type 0} (range : Endpoints → List (WorkflowKey × Url)) (pod_for : PodResolver E) where
  -- the end of ResolveInstance, where lease routing gave nothing
  by_service : Resolver → String → String → Outcome RoutingError Destination
  by_service r namespace name = elim (resolve_execution range r namespace name "") [
    | ok url ↦ ok (record { url = url; kind = destination_service })
    | err e ↦ err e
  ]

  by_lease :
      Resolver → String → String → Outcome E (Option String) → Outcome RoutingError Destination
  by_lease r namespace name (ok (some pod)) =
      ok (record { url = pod_url pod r.runner_port; kind = destination_pod })
  by_lease r namespace name _ = by_service r namespace name

  -- ResolveInstance
  unfoldable pub resolve_instance :
      Resolver → String → String → String → Outcome RoutingError Destination
  unfolding by_lease by_service
  resolve_instance r namespace name instance_id = elim (get instance_id r.instances) [
    | some lease_id ↦ by_lease r namespace name (pod_for namespace lease_id)
    | none ↦ by_service r namespace name
  ]

-- CacheInstance
unfoldable pub cache_instance : Resolver → String → String → Resolver
cache_instance r instance_id lease_id = record r {
  instances = put instance_id lease_id r.instances;
}

-- RemoveInstance
unfoldable pub remove_instance : Resolver → String → Resolver
remove_instance r instance_id = record r { instances = remove instance_id r.instances }
