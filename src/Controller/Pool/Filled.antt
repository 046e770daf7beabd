-- ===== src/Controller/Pool/Filled.antt =====
-- `reconcileLeases` fills the pool.
use mathlib.Core.Path.{subst}
use logic_operator.Prelude.{
  bind_ok, ℕ, zero, suc, ◌+◌, ◌<◌, ◌≤◌, String, ◌≡◌, refl, ap, ◌⊎◌, inl, inr, true, Option, none,
  some, List, [], ◌∷◌, Outcome, ok, err, Outcome-cases, Bool-cases, arith, In, text_Eq, ◌==◌,
  same-path,
}
use logic_operator.Api.Application.{PersistenceOptionsSpec}
use logic_operator.Api.Runtime.{LogicFlowRuntime}
use logic_operator.Controller.Pool.{
  Lease, Deployment, PoolServer, CreateError, already_exists, create_failed, Step, tolerate,
  member_name, new_member_lease, has_name, ensure_lease, lease_loop, fill_pool, reconcile_leases,
  names_of,
}
use logic_operator.Controller.Workload.{effective_replicas}
use logic_operator.Controller.Pool.Laws.{LeaseLaws, final, state_of, Has}
use logic_operator.Controller.Pool.Kept.{ensure_keeps, loop_keeps}

pub tolerated :
    {W : Type 0} (o : Outcome (CreateError × W) W) (after : W)
    → tolerate o ≡ ok after
    → (o ≡ ok after) ⊎ (o ≡ err (already_exists, after))
tolerated (ok w) after h = inl (ground (arith, h))
tolerated (err (already_exists, w)) after h = inr (ground (arith, h))
tolerated (err (create_failed message, w)) after h = absurd (ground (arith, h))

before_or_here : (i j : ℕ) → i ≤ j → (i ≡ j) ⊎ (suc i ≤ j)
before_or_here i j h = omega (arith, h)

-- The server fails no creation for another reason than that the object exists.
abbrev pub Accepts : {W : Type 0} → PoolServer W → Type 0
Accepts {W} server =
    (w : W) (l : Lease) → (after : W) × (tolerate (server.create_lease w l) ≡ ok after)

module _ {W : Type 0} (server : PoolServer W) (Stored : W → Lease → Type 0)
    (laws : LeaseLaws server Stored) (rt : LogicFlowRuntime) where
  -- Every name of the list is that of a lease that is there.
  abbrev Known : List String → W → Type 0
  Known existing w =
      (name : String) → has_name name existing ≡ true → Has Stored w rt.namespace name

  has_name-names_of :
      (name : String) (leases : List Lease)
      → has_name name (names_of server leases) ≡ true
      → (x : Lease) × In x leases × (x.name ≡ name)
  unfolding has_name
  has_name-names_of name [] h = cc
  has_name-names_of name (l ∷ leases) h = elim (Bool-cases (l.name == name)) [
    | inl e ↦ (l, inl refl, same-path l.name name e)
    | inr e ↦ let (x, i, p) = has_name-names_of name leases (ground (arith, e, h)) in (x, inr i, p)
  ]

  Known-list :
      (w : W) (leases : List Lease)
      → server.list_leases w rt.namespace rt.name ≡ ok leases
      → Known (names_of server leases) w
  Known-list w leases e name h =
      let (x, i, p) = has_name-names_of name leases h in
      let (there, here) = laws.listed w rt.namespace rt.name leases e x i in (x, there, here, p)

  Has-tolerate :
      (w after : W) (l : Lease)
      → tolerate (server.create_lease w l) ≡ ok after
      → Has Stored after l.namespace l.name
  Has-tolerate w after l h = elim (tolerated (server.create_lease w l) after h) [
    | inl e ↦ (l, laws.created w after l e, refl, refl)
    | inr e ↦
        let (x, there, here, p) = laws.exists w after l e in
        (x, subst (λ v. Stored v x) (ap state_of e) (laws.keeps w l x there), here, p)
  ]

  Has-ensure_lease :
      (d : Deployment) (existing : List String) (w after : W) (name : String)
      → Known existing w
      → ensure_lease server rt (some d) existing w name ≡ ok after
      → Has Stored after rt.namespace name
  unfolding ensure_lease new_member_lease
  Has-ensure_lease d existing w after name known h = elim (Bool-cases (has_name name existing)) [
    | inl e ↦ subst (λ v. Has Stored v rt.namespace name) (ground (arith, e, h)) (known name e)
    | inr e ↦
        Has-tolerate w after (new_member_lease name rt.namespace rt.name d) (ground (arith, e, h))
  ]

  -- A lease that is there stays there, in a step that succeeds.
  pub Has-kept :
      (s : Step W) (w after : W) (name : String)
      → s ≡ ok after
      → ((x : Lease) → Stored w x → Stored (final s) x)
      → Has Stored w rt.namespace name
      → Has Stored after rt.namespace name
  Has-kept s w after name e keeps (x, there, here, p) =
      (x, subst (λ t. Stored (final t) x) e (keeps x there), here, p)

  loop_fills :
      (d : Deployment) (existing : List String) (i count j : ℕ) (w after : W)
      → Known existing w
      → lease_loop server rt (some d) existing i count w ≡ ok after
      → i ≤ j
      → j < i + count
      → Has Stored after rt.namespace (member_name rt.name j)
  unfolding lease_loop
  loop_fills d existing i zero j w after known h low high = absurd (omega (arith, low, high))
  loop_fills d existing i (suc count) j w after known h low high =
      let (v, first, rest) =
        bind_ok (ensure_lease server rt (some d) existing w (member_name rt.name i))
          (lease_loop server rt (some d) existing (suc i) count) after h in
      let known_next : Known existing v = λ name e.
        Has-kept (ensure_lease server rt (some d) existing w (member_name rt.name i)) w v name first
          (ensure_keeps server Stored laws rt (some d) existing w (member_name rt.name i))
          (known name e) in
      elim (before_or_here i j low) [
        | inl p ↦
            Has-kept (lease_loop server rt (some d) existing (suc i) count v) v after
              (member_name rt.name j) rest
              (loop_keeps server Stored laws rt (some d) existing (suc i) count v)
              (subst (λ k. Has Stored v rt.namespace (member_name rt.name k)) p
                (Has-ensure_lease d existing w v (member_name rt.name i) known first))
        | inr q ↦
            loop_fills d existing (suc i) count j v after known_next rest q (omega (arith, high))
      ]

  -- When it succeeds and the Deployment is there, the whole pool is.
  pub reconcile_leases_fills :
      (w after : W) (p : PersistenceOptionsSpec) (d : Deployment) (j : ℕ)
      → rt.spec.persistence ≡ some p
      → server.get_deployment w rt.namespace rt.name ≡ ok d
      → reconcile_leases server rt w ≡ ok after
      → j < effective_replicas rt.spec.application
      → Has Stored after rt.namespace (member_name rt.name j)
  unfolding reconcile_leases fill_pool
  reconcile_leases_fills w after p d j durable found h below =
      elim (Outcome-cases (server.list_leases w rt.namespace rt.name)) [
        | inr (message, e) ↦ absurd (ground (arith, durable, found, h, e))
        | inl (leases, e) ↦
            loop_fills d (names_of server leases) 0 (effective_replicas rt.spec.application) j w
              after (Known-list w leases e) (ground (arith, durable, found, h, e)) (omega arith)
              (omega (arith, below))
      ]

  ensure-Accepts :
      (dep : Option Deployment) (existing : List String) (w : W) (name : String)
      → Accepts server
      → (after : W) × (ensure_lease server rt dep existing w name ≡ ok after)
  unfolding ensure_lease
  ensure-Accepts none existing w name a = (w, ground arith)
  ensure-Accepts (some d) existing w name a = elim (Bool-cases (has_name name existing)) [
    | inl e ↦ (w, rw e refl)
    | inr e ↦ let (after, q) = a w (new_member_lease name rt.namespace rt.name d) in (after, rw e q)
  ]

  loop-Accepts :
      (dep : Option Deployment) (existing : List String) (i count : ℕ) (w : W)
      → Accepts server
      → (after : W) × (lease_loop server rt dep existing i count w ≡ ok after)
  unfolding lease_loop
  loop-Accepts dep existing i zero w a = (w, refl)
  loop-Accepts dep existing i (suc count) w a =
      let (v, e) = ensure-Accepts dep existing w (member_name rt.name i) a in
      let (after, q) = loop-Accepts dep existing (suc i) count v a in (after, rw e q)

  -- If the Deployment of a runtime with persistence is there, the list of leases is answered and no
  -- creation fails but for an object that exists, `reconcileLeases` succeeds, and then there is a
  -- lease of the pool for every index below the number of replicas.
  pub reconcile_leases_live :
      (w : W) (p : PersistenceOptionsSpec) (d : Deployment) (leases : List Lease)
      → rt.spec.persistence ≡ some p
      → server.get_deployment w rt.namespace rt.name ≡ ok d
      → server.list_leases w rt.namespace rt.name ≡ ok leases
      → Accepts server
      → (after : W) × (reconcile_leases server rt w ≡ ok after)
        × ((j : ℕ)
            → j < effective_replicas rt.spec.application
            → Has Stored after rt.namespace (member_name rt.name j))
  unfolding reconcile_leases fill_pool
  reconcile_leases_live w p d leases durable found listed a =
      let (after, e) =
        loop-Accepts (some d) (names_of server leases) 0 (effective_replicas rt.spec.application) w
          a in
      let done : reconcile_leases server rt w ≡ ok after =
        ground (arith, durable, found, listed, e) in
      (after, done, λ j below. reconcile_leases_fills w after p d j durable found done below)
