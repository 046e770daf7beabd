-- ===== src/Gateway/Routing/Instance.antt =====
-- Which pod or service an instance operation is sent to.
use logic_operator.Prelude.{
  String, ◌≡◌, ◌≢◌, ◌↔◌, Option-cases, Outcome-cases, inl, inr, Option, none, some, List, arith,
  text_Eq, ◌==◌, if◌then◌else◌, Outcome, ok, err, Option-cases,
}
use logic_operator.Prelude.Assoc.{get, get-put}
use logic_operator.Api.Client.{GetError}
use logic_operator.Gateway.Lease.{Lease, pod_for, pod_for-some}
use logic_operator.Gateway.Routing.{
  WorkflowKey, Url, Endpoints, PodResolver, Resolver, RoutingError, Destination, destination_pod,
  destination_service, resolve_execution, resolve_instance, cache_instance, pod_url,
}

-- The pod that lease routing finds for an instance: the holder of the lease that is cached for it.
abbrev pub leased_pod : {E : Type 0} → Outcome E (Option String) → Option String
leased_pod (ok pod) = pod
leased_pod (err e) = none

unfoldable pub holder_of : {E : Type 0} → PodResolver E → Resolver → String → String → Option String
holder_of pod_for r namespace instance_id = elim (get instance_id r.instances) [
  | none ↦ none
  | some lease_id ↦ leased_pod (pod_for namespace lease_id)
]

abbrev pub to_service : Outcome RoutingError Url → Outcome RoutingError Destination
to_service (ok url) = ok (record { url = url; kind = destination_service })
to_service (err e) = err e

module _ {E : Type 0} (range : Endpoints → List (WorkflowKey × Url)) (pod_for : PodResolver E)
    (r : Resolver) (namespace name : String) where
  -- `ResolveInstance` goes to the pod that holds the cached lease, on the runner's port, if there is
  -- one. Else (nothing cached, no holder, or an error of the lease lookup) it answers the service
  -- that `ResolveExecution` has for the workflow with no version, and its error.
  pub resolve_instance_lem :
      (instance_id : String)
      → resolve_instance range pod_for r namespace name instance_id
        ≡ (elim (holder_of pod_for r namespace instance_id) [
          | some pod ↦ ok (record { url = pod_url pod r.runner_port; kind = destination_pod })
          | none ↦ to_service (resolve_execution range r namespace name "")
        ])
  unfolding resolve_instance holder_of
  resolve_instance_lem instance_id = ground arith

  -- After `CacheInstance id lease` the operations on `id` go where the holder of `lease` is, and
  -- every other instance keeps its destination.
  pub resolve_instance-cache_instance :
      (id other lease : String)
      → resolve_instance range pod_for (cache_instance r id lease) namespace name other ≡ (
          if id == other
          then (elim (leased_pod (pod_for namespace lease)) [
            | some pod ↦ ok (record { url = pod_url pod r.runner_port; kind = destination_pod })
            | none ↦ to_service (resolve_execution range r namespace name "")
          ])
          else resolve_instance range pod_for r namespace name other)
  unfolding resolve_instance cache_instance resolve_execution
  resolve_instance-cache_instance id other lease =
      ground (arith, get-put id other lease r.instances)

holder_of_cases :
    {E : Type 0} (pods : PodResolver E) (r : Resolver) (namespace id pod : String)
    → holder_of pods r namespace id ≡ some pod
    → (lease_id : String) × (get id r.instances ≡ some lease_id)
      × (pods namespace lease_id ≡ ok (some pod))
unfolding holder_of
holder_of_cases pods r namespace id pod h = elim (Option-cases (get id r.instances)) [
  | inl e ↦ absurd (ground (arith, e, h))
  | inr (lease_id, e) ↦ (
    lease_id,
    e,
    elim (Outcome-cases (pods namespace lease_id)) [
      | inl (o, q) ↦ ground (arith, e, q, h)
      | inr (x, q) ↦ absurd (ground (arith, e, q, h))
    ],
  )
]

holder_of_found :
    {E : Type 0} (pods : PodResolver E) (r : Resolver) (namespace id lease_id pod : String)
    → get id r.instances ≡ some lease_id
    → pods namespace lease_id ≡ ok (some pod)
    → holder_of pods r namespace id ≡ some pod
unfolding holder_of
holder_of_found pods r namespace id lease_id pod cached found = ground (arith, cached, found)

service_ne_pod :
    (o : Outcome RoutingError Url) (u : Url)
    → ¬ (to_service o ≡ ok (record { url = u; kind = destination_pod }))
service_ne_pod (ok v) u h = ground arith
service_ne_pod (err e) u h = ground arith

pod_answer :
    {E : Type 0} (range : Endpoints → List (WorkflowKey × Url)) (pods : PodResolver E)
    (r : Resolver) (namespace name id : String) (u : Url)
    → resolve_instance range pods r namespace name id
      ≡ ok (record { url = u; kind = destination_pod })
    → (pod : String) × (holder_of pods r namespace id ≡ some pod) × (u ≡ pod_url pod r.runner_port)
pod_answer range pods r namespace name id u h =
    elim (Option-cases (holder_of pods r namespace id)) [
      | inl e ↦ absurd (
          service_ne_pod (resolve_execution range r namespace name "") u
            (rw (resolve_instance_lem range pods r namespace name id, e) at h))
      | inr (pod, e) ↦
          (pod, e, ground (arith, rw (resolve_instance_lem range pods r namespace name id, e) at h))
    ]

-- With the lease resolver of the gateway, `ResolveInstance` goes to a pod exactly when the instance
-- is cached with a lease, the API server has that lease in the namespace of the request, and the
-- lease names a holder that is not empty; the URL is then that of the holder.
pub resolve_instance-pod :
    (range : Endpoints → List (WorkflowKey × Url))
    (get_lease : String → String → Outcome GetError Lease) (r : Resolver)
    (namespace name id : String) (u : Url)
    → (resolve_instance range (pod_for get_lease) r namespace name id
        ≡ ok (record { url = u; kind = destination_pod }))
      ↔ ((lease_id : String) × (lease : Lease) × (pod : String) × (get id r.instances
            ≡ some lease_id)
          × (get_lease namespace lease_id ≡ ok lease)
          × (lease.holder_identity ≡ some pod)
          × (pod ≢ "")
          × (u ≡ pod_url pod r.runner_port))
resolve_instance-pod range get_lease r namespace name id u = (
  λ h.
      let (pod, held, address) = pod_answer range (pod_for get_lease) r namespace name id u h in
      let (lease_id, cached, found) = holder_of_cases (pod_for get_lease) r namespace id pod held in
      let (lease, there, holder, ne) = (pod_for-some get_lease namespace lease_id pod).0 found in
      (lease_id, lease, pod, cached, there, holder, ne, address),
  λ w.
      let (lease_id, lease, pod, cached, there, holder, ne, address) = w in
      rw (resolve_instance_lem range (pod_for get_lease) r namespace name id) (
        rw
          (holder_of_found (pod_for get_lease) r namespace id lease_id pod cached
            ((pod_for-some get_lease namespace lease_id pod).1 (lease, there, holder, ne)))
          (rw address)),
)
