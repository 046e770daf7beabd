-- ===== src/Controller/Pool/Kept.antt =====
-- What `reconcileLeases` keeps and what it adds.
use logic_operator.Prelude.{
  ℕ, zero, suc, ◌+◌, ◌<◌, ◌≤◌, String, ◌≡◌, refl, ap, ◌∙◌, ◌≢◌, ◌↔◌, ◌⊎◌, inl, inr, Option, none,
  some, List, Outcome, ok, err, ◌>>=◌, Outcome-cases, Option-cases, Bool-cases, arith,
}
use logic_operator.Api.Runtime.{LogicFlowRuntime}
use logic_operator.Controller.Pool.{
  Lease, Deployment, PoolServer, CreateError, already_exists, create_failed, Step, tolerate,
  member_name, new_member_lease, has_name, ensure_lease, lease_loop, fill_pool, reconcile_leases,
  found_deployment, names_of,
}
use logic_operator.Controller.Workload.{effective_replicas}
use logic_operator.Controller.Pool.Laws.{LeaseLaws, final, state_of}

final-tolerate : {W : Type 0} (o : Outcome (CreateError × W) W) → final (tolerate o) ≡ state_of o
final-tolerate (ok w) = refl
final-tolerate (err (already_exists, w)) = refl
final-tolerate (err (create_failed message, w)) = refl

-- What holds after a step and is kept by the next one holds after both.
pub final-bind :
    {W : Type 0} (P : W → Type 0) (s : Step W) (next : W → Step W)
    → P (final s)
    → ((after : W) → P after → P (final (next after)))
    → P (final (s >>= next))
final-bind P (ok w) next h k = k w h
final-bind P (err (message, w)) next h k = h

-- The leases that the operator may add: members of the pool with an index below `bound`
pub record IsMember (rt : LogicFlowRuntime) (bound : ℕ) (dep : Option Deployment) (x : Lease)
    : Type 0 where
  pub index : ℕ
  pub below : index < bound
  pub deployment : Deployment
  pub found : dep ≡ some deployment
  pub made : x ≡ new_member_lease (member_name rt.name index) rt.namespace rt.name deployment

module _ {W : Type 0} (server : PoolServer W) (Stored : W → Lease → Type 0)
    (laws : LeaseLaws server Stored) (rt : LogicFlowRuntime) where
  pub ensure_keeps :
      (dep : Option Deployment) (existing : List String) (w : W) (name : String) (x : Lease)
      → Stored w x
      → Stored (final (ensure_lease server rt dep existing w name)) x
  unfolding ensure_lease
  ensure_keeps none existing w name x h = elim (Bool-cases (has_name name existing)) [
    | inl e ↦ rw e h
    | inr e ↦ rw e h
  ]
  ensure_keeps (some d) existing w name x h = elim (Bool-cases (has_name name existing)) [
    | inl e ↦ rw e h
    | inr e ↦
        rw (e, final-tolerate) (laws.keeps w (new_member_lease name rt.namespace rt.name d) x h)
  ]

  pub loop_keeps :
      (dep : Option Deployment) (existing : List String) (i count : ℕ) (w : W) (x : Lease)
      → Stored w x
      → Stored (final (lease_loop server rt dep existing i count w)) x
  unfolding lease_loop
  loop_keeps dep existing i zero w x h = h
  loop_keeps dep existing i (suc count) w x h =
      final-bind (λ v. Stored v x) (ensure_lease server rt dep existing w (member_name rt.name i))
        (lease_loop server rt dep existing (suc i) count)
        (ensure_keeps dep existing w (member_name rt.name i) x h)
        (λ after k. loop_keeps dep existing (suc i) count after x k)

  ensure_adds :
      (dep : Option Deployment) (existing : List String) (w : W) (name : String) (x : Lease)
      → Stored (final (ensure_lease server rt dep existing w name)) x
      → Stored w x
        ⊎ ((d : Deployment) × (dep ≡ some d) × (x ≡ new_member_lease name rt.namespace rt.name d))
  unfolding ensure_lease
  ensure_adds none existing w name x = elim (Bool-cases (has_name name existing)) [
    | inl e ↦ rw e (λ h. inl h)
    | inr e ↦ rw e (λ h. inl h)
  ]
  ensure_adds (some d) existing w name x = elim (Bool-cases (has_name name existing)) [
    | inl e ↦ rw e (λ h. inl h)
    | inr e ↦
        rw (e, final-tolerate)
          (λ h. elim (laws.adds w (new_member_lease name rt.namespace rt.name d) x h) [
            | inl old ↦ inl old
            | inr p ↦ inr (d, refl, p)
          ])
  ]

  loop_adds :
      (dep : Option Deployment) (existing : List String) (i count bound : ℕ) (w v : W) (x : Lease)
      → i + count ≤ bound
      → (Stored w x → Stored v x ⊎ IsMember rt bound dep x)
      → Stored (final (lease_loop server rt dep existing i count w)) x
      → Stored v x ⊎ IsMember rt bound dep x
  unfolding lease_loop
  loop_adds dep existing i zero bound w v x fits known = known
  loop_adds dep existing i (suc count) bound w v x fits known =
      final-bind (λ u. Stored u x → Stored v x ⊎ IsMember rt bound dep x)
        (ensure_lease server rt dep existing w (member_name rt.name i))
        (lease_loop server rt dep existing (suc i) count)
        (λ h. elim (ensure_adds dep existing w (member_name rt.name i) x h) [
          | inl old ↦ known old
          | inr (d, found, made) ↦ inr (record {
            index = i;
            below = omega (arith, fits);
            deployment = d;
            found = found;
            made = made;
          })
        ])
        (λ after k. loop_adds dep existing (suc i) count bound after v x (omega (arith, fits)) k)

  -- `fill_pool` stops at once, or it is the loop.
  fill_pool_cases :
      (P : Step W → Type 0) (w : W)
      → ((message : String) → P (err (message, w)))
      → ((dep : Option Deployment) (existing : List String)
          → found_deployment (server.get_deployment w rt.namespace rt.name) ≡ ok dep
          → P (lease_loop server rt dep existing 0 (effective_replicas rt.spec.application) w))
      → P (fill_pool server rt w)
  unfolding fill_pool
  fill_pool_cases P w stops loops =
      elim (Outcome-cases (found_deployment (server.get_deployment w rt.namespace rt.name))) [
        | inr (message, e) ↦ rw (fill_pool, e) (stops message)
        | inl (dep, e) ↦ elim (Outcome-cases (server.list_leases w rt.namespace rt.name)) [
          | inr (message, f) ↦ rw (fill_pool, e, f) (stops message)
          | inl (leases, f) ↦ rw (fill_pool, e, f) (loops dep (names_of server leases) e)
        ]
      ]

  -- `reconcileLeases` does nothing, stops at once, or is the loop.
  pub reconcile_leases_cases :
      (P : Step W → Type 0) (w : W)
      → P (ok w)
      → ((message : String) → P (err (message, w)))
      → ((dep : Option Deployment) (existing : List String)
          → found_deployment (server.get_deployment w rt.namespace rt.name) ≡ ok dep
          → P (lease_loop server rt dep existing 0 (effective_replicas rt.spec.application) w))
      → P (reconcile_leases server rt w)
  unfolding reconcile_leases
  reconcile_leases_cases P w idle stops loops = elim (Option-cases rt.spec.persistence) [
    | inl e ↦ rw (reconcile_leases, e) idle
    | inr (p, e) ↦ rw (reconcile_leases, e) (fill_pool_cases P w stops loops)
  ]

  made_name :
      (name : String) (d : Deployment) → (new_member_lease name rt.namespace rt.name d).name ≡ name
  unfolding new_member_lease
  made_name name d = refl

  -- Whether it succeeds or stops, `reconcileLeases` keeps every lease that is there.
  pub reconcile_leases_keeps :
      (w : W) (x : Lease) → Stored w x → Stored (final (reconcile_leases server rt w)) x
  reconcile_leases_keeps w x h =
      reconcile_leases_cases (λ s. Stored (final s) x) w h (λ message. h)
        (λ dep existing found.
          loop_keeps dep existing 0 (effective_replicas rt.spec.application) w x h)

  pub reconcile_leases_adds :
      (w : W) (x : Lease)
      → Stored (final (reconcile_leases server rt w)) x
      → Stored w x
        ⊎ ((dep : Option Deployment) × (found_deployment
                (server.get_deployment w rt.namespace rt.name)
              ≡ ok dep)
            × IsMember rt (effective_replicas rt.spec.application) dep x)
  reconcile_leases_adds w x =
      reconcile_leases_cases
        (λ s.
          Stored (final s) x
          → Stored w x
            ⊎ ((dep : Option Deployment) × (found_deployment
                    (server.get_deployment w rt.namespace rt.name)
                  ≡ ok dep)
                × IsMember rt (effective_replicas rt.spec.application) dep x))
        w (λ h. inl h) (λ message h. inl h)
        (λ dep existing found h.
          elim (loop_adds dep existing 0 (effective_replicas rt.spec.application)
            (effective_replicas rt.spec.application) w w x (omega arith) (λ k. inl k) h) [
              | inl old ↦ inl old
              | inr m ↦ inr (dep, found, m)
            ])

  -- A lease whose name is not that of an index below the number of replicas, such as one that a
  -- scale-down leaves over, is there after `reconcileLeases` exactly if it was there before, whether
  -- the run succeeds or stops: the reconciler neither adds nor deletes it.
  pub reconcile_leases_excess :
      (w : W) (x : Lease)
      → ((i : ℕ) → i < effective_replicas rt.spec.application → x.name ≢ member_name rt.name i)
      → Stored (final (reconcile_leases server rt w)) x ↔ Stored w x
  reconcile_leases_excess w x outside = (
    λ h. elim (reconcile_leases_adds w x h) [
      | inl old ↦ old
      | inr (dep, found, m) ↦ absurd (
          outside m.index m.below (
            ap (λ (l : Lease). l.name) m.made
            ∙ made_name (member_name rt.name m.index) m.deployment))
    ],
    reconcile_leases_keeps w x,
  )
