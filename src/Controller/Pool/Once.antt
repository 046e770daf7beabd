-- ===== src/Controller/Pool/Once.antt =====
-- A second run of `reconcileLeases` changes no lease.
use mathlib.Core.Path.{subst}
use logic_operator.Prelude.{
  bind_ok, ℕ, zero, suc, ◌+◌, ◌<◌, ◌≤◌, String, ◌≡◌, refl, ◌↔◌, ◌⊎◌, inl, inr, Option, none, some,
  List, ok, Outcome-cases, Option-cases, Bool-cases, arith, text_Eq,
}
use logic_operator.Api.Client.{not_found, other_error}
use logic_operator.Api.Runtime.{LogicFlowRuntime}
use logic_operator.Controller.Pool.{
  Lease, Deployment, PoolServer, member_name, new_member_lease, has_name, ensure_lease, lease_loop,
  fill_pool, reconcile_leases, names_of,
}
use logic_operator.Controller.Workload.{effective_replicas}
use logic_operator.Controller.Pool.Laws.{LeaseLaws, Has, final}
use logic_operator.Controller.Pool.Kept.{ensure_keeps, reconcile_leases_keeps}
use logic_operator.Controller.Pool.Kept.{reconcile_leases_cases}
use logic_operator.Controller.Pool.Filled.{tolerated, Has-kept, reconcile_leases_fills}

module _ {W : Type 0} (server : PoolServer W) (Stored : W → Lease → Type 0)
    (laws : LeaseLaws server Stored) (rt : LogicFlowRuntime) where
  ensure_nothing :
      (dep : Option Deployment) (existing : List String) (w after : W) (name : String) (x : Lease)
      → Has Stored w rt.namespace name
      → ensure_lease server rt dep existing w name ≡ ok after
      → Stored after x
      → Stored w x
  unfolding ensure_lease new_member_lease
  ensure_nothing none existing w after name x has h there =
      subst (λ v. Stored v x) (ground (arith, h)) there
  ensure_nothing (some d) existing w after name x (l, held, here, named) h there =
      let made = new_member_lease name rt.namespace rt.name d in
      elim (Bool-cases (has_name name existing)) [
        | inl e ↦ subst (λ v. Stored v x) (ground (arith, e, h)) there
        | inr e ↦ elim (tolerated (server.create_lease w made) after (ground (arith, e, h))) [
          | inl p ↦ absurd (laws.conflict w after made l held here named p)
          | inr p ↦ laws.unchanged w after made x p there
        ]
      ]

  loop_nothing :
      (dep : Option Deployment) (existing : List String) (i count : ℕ) (w after : W) (x : Lease)
      → ((j : ℕ) → i ≤ j → j < i + count → Has Stored w rt.namespace (member_name rt.name j))
      → lease_loop server rt dep existing i count w ≡ ok after
      → Stored after x
      → Stored w x
  unfolding lease_loop
  loop_nothing dep existing i zero w after x full h there =
      subst (λ v. Stored v x) (ground (arith, h)) there
  loop_nothing dep existing i (suc count) w after x full h there =
      let name = member_name rt.name i in
      let (v, first, rest) =
        bind_ok (ensure_lease server rt dep existing w name)
          (lease_loop server rt dep existing (suc i) count) after h in
      ensure_nothing dep existing w v name x (full i (omega arith) (omega arith)) first (
        loop_nothing dep existing (suc i) count v after x
          (λ j low high.
            Has-kept server Stored laws rt (ensure_lease server rt dep existing w name) w v
              (member_name rt.name j) first (ensure_keeps server Stored laws rt dep existing w name)
              (full j (omega (arith, low)) (omega (arith, high))))
          rest there)

  loop_idle :
      (existing : List String) (i count : ℕ) (w : W)
      → lease_loop server rt none existing i count w ≡ ok w
  unfolding lease_loop ensure_lease
  loop_idle existing i zero w = refl
  loop_idle existing i (suc count) w = ground (arith, loop_idle existing (suc i) count w)

  -- Either the run changed nothing, or it filled the pool.
  run_cases :
      (w v : W)
      → reconcile_leases server rt w ≡ ok v
      → (v ≡ w)
        ⊎ ((j : ℕ)
            → j < effective_replicas rt.spec.application
            → Has Stored v rt.namespace (member_name rt.name j))
  unfolding reconcile_leases fill_pool
  run_cases w v h = elim (Option-cases rt.spec.persistence) [
    | inl e ↦ inl (ground (arith, e, h))
    | inr (p, e) ↦ elim (Outcome-cases (server.get_deployment w rt.namespace rt.name)) [
      | inl (d, f) ↦
          inr (λ j below. reconcile_leases_fills server Stored laws rt w v p d j e f h below)
      | inr (not_found, f) ↦ elim (Outcome-cases (server.list_leases w rt.namespace rt.name)) [
        | inr (message, g) ↦ absurd (ground (arith, e, f, g, h))
        | inl (leases, g) ↦ inl (
            ground (
              arith,
              e,
              f,
              g,
              h,
              loop_idle (names_of server leases) 0 (effective_replicas rt.spec.application) w,
            ))
      ]
      | inr (other_error message, f) ↦ absurd (ground (arith, e, f, h))
    ]
  ]

  same :
      {w v after : W}
      → reconcile_leases server rt w ≡ ok v
      → reconcile_leases server rt v ≡ ok after
      → v ≡ w
      → after ≡ v
  same first second p = cc

  nothing_new :
      (w v after : W) (x : Lease)
      → reconcile_leases server rt w ≡ ok v
      → reconcile_leases server rt v ≡ ok after
      → Stored after x
      → Stored v x
  nothing_new w v after x first second there = elim (run_cases w v first) [
    | inl p ↦ subst (λ u. Stored u x) (same first second p) there
    | inr full ↦
        reconcile_leases_cases server Stored laws rt (λ s. s ≡ ok after → Stored v x) v
          (λ q. subst (λ u. Stored u x) (ground (arith, q)) there)
          (λ message q. absurd (ground (arith, q)))
          (λ dep existing found q.
            loop_nothing dep existing 0 (effective_replicas rt.spec.application) v after x
              (λ j low high. full j (omega (arith, high))) q there)
          second
  ]

  -- If `reconcileLeases` succeeds twice in a row, the second run leaves exactly the leases that the
  -- first one left.
  pub reconcile_leases_once :
      (w v after : W) (x : Lease)
      → reconcile_leases server rt w ≡ ok v
      → reconcile_leases server rt v ≡ ok after
      → Stored after x ↔ Stored v x
  reconcile_leases_once w v after x first second = (
    nothing_new w v after x first second,
    λ there.
        subst (λ s. Stored (final s) x) second
          (reconcile_leases_keeps server Stored laws rt v x there),
  )
