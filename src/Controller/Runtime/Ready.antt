-- ===== src/Controller/Runtime/Ready.antt =====
-- When the status of a runtime says Ready.
use logic_operator.Prelude.{
  ◌≤◌, ◌<◌, String, ◌≡◌, refl, ◌⊎◌, inl, inr, true, none, List, ok, arith, bind_ok, length, text_Eq,
}
use logic_operator.Api.Conditions.{ConditionsApi, ready, derive_phase}
use logic_operator.Api.Conditions.Blocks.{Blocked, Blocked-ne-ready}
use logic_operator.Api.Conditions.Phase.{derive_phase-ready}
use logic_operator.Api.Runtime.{LogicFlowRuntime}
use logic_operator.Controller.Definition.{ConfigMap}
use logic_operator.Controller.Pool.{Deployment, Lease}
use logic_operator.Controller.Workload.{effective_replicas}
use logic_operator.Controller.Runtime.{RuntimeServer, observed_status}
use logic_operator.Controller.Status.{
  update_status_deployment, update_status_svc, update_status_leases, with_refs,
}
use logic_operator.Controller.Status.Ready.{
  has_available, Deployed, Served, Leased, update_status_deployment-Deployed,
  update_status_svc-Served, update_status_leases-Leased,
}

-- The workload of a runtime runs, by the answers of the server: its Deployment is available with a
-- ready replica, its Service is there, and with persistence its pool has a lease for each replica.
pub record IsRunning {W : Type 0} (server : RuntimeServer W) (w : W) (rt : LogicFlowRuntime)
    : Type 0 where
  pub deployment : Deployment
  pub found : server.pool.get_deployment w rt.namespace rt.name ≡ ok deployment
  pub available : has_available deployment.conditions ≡ true
  pub replicas : 0 < deployment.ready_replicas
  pub service : (u : Unit {0}) × (server.get_service w rt.namespace rt.name ≡ ok u)
  pub pool :
      (rt.spec.persistence ≡ none)
      ⊎ ((leases : List Lease) × (server.pool.list_leases w rt.namespace rt.name ≡ ok leases)
          × (effective_replicas rt.spec.application ≤ length leases))

module _ (api : ConditionsApi) {W : Type 0} (server : RuntimeServer W) where
  -- What the three parts leave, put together
  parts :
      (w : W) (rt start deployed served leased : LogicFlowRuntime)
      → start.spec ≡ rt.spec
      → Deployed api (server.pool.get_deployment w rt.namespace rt.name) start deployed
      → Served api (server.get_service w rt.namespace rt.name) deployed served
      → Leased api (server.pool.list_leases w rt.namespace rt.name) served leased
      → derive_phase leased.status.conditions leased.status.ready_replicas ≡ ready
      → IsRunning server w rt
  parts w rt start deployed served leased same (spec1, one) ((agrees2, keeps2), two)
        ((agrees3, keeps3), three) is_ready =
      let never : (kind : String) → Blocked api kind leased.status.conditions → ⊥ = λ kind b.
        Blocked-ne-ready api kind leased.status.conditions leased.status.ready_replicas b
          is_ready in
      let waits =
        ((derive_phase-ready leased.status.conditions leased.status.ready_replicas).0 is_ready).1 in
      elim one [
        | inl b ↦ absurd (
            never "DeploymentAvailable"
              (keeps3 "DeploymentAvailable" refl (keeps2 "DeploymentAvailable" refl b)))
        | inr (d, found, available, counts) ↦ record {
          deployment = d;
          found = found;
          available = available;
          replicas = ground (arith, waits, counts, agrees2.ready_replicas, agrees3.ready_replicas);
          service = elim two [
            | inl b ↦ absurd (never "ServiceReady" (keeps3 "ServiceReady" refl b))
            | inr u ↦ u
          ];
          pool = elim three [
            | inl p ↦ inl (ground (arith, p, agrees2.spec, spec1, same))
            | inr (inl b) ↦ absurd (never "LeaseReady" b)
            | inr (inr (leases, listed, enough)) ↦
                inr (leases, listed, ground (arith, enough, agrees2.spec, spec1, same))
          ];
        }
      ]

  -- If updateStatus computes a status with the phase Ready, the workload of the runtime runs,
  -- whatever the conditions were before.
  pub observed_status-IsRunning :
      (w : W) (rt after : LogicFlowRuntime) (config_maps : List ConfigMap)
      → observed_status api server w rt config_maps ≡ ok after
      → after.status.phase ≡ ready
      → IsRunning server w rt
  unfolding observed_status
  observed_status-IsRunning w rt after config_maps h is_ready =
      let got = server.pool.get_deployment w rt.namespace rt.name in
      let service = server.get_service w rt.namespace rt.name in
      let listed = server.pool.list_leases w rt.namespace rt.name in
      let start = with_refs rt config_maps in
      let (deployed, h1, r1) = bind_ok (update_status_deployment api got start) _ after h in
      let (served, h2, r2) = bind_ok (update_status_svc api service deployed) _ after r1 in
      let (leased, h3, r3) = bind_ok (update_status_leases api listed served) _ after r2 in
      parts w rt start deployed served leased refl
        (update_status_deployment-Deployed api got start deployed h1)
        (update_status_svc-Served api service deployed served h2)
        (update_status_leases-Leased api listed served leased h3) (ground (arith, r3, is_ready))
