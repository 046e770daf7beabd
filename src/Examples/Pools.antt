-- ===== src/Examples/Pools.antt =====
-- The theorems on the leases of a pool, at a cluster that is a list of leases.
use mathlib.Core.Path.{subst}
use logic_operator.Prelude.{
  ℕ, ◌<◌, String, ◌≡◌, refl, sym, ◌≢◌, ◌⊎◌, inl, inr, Bool, true, false, ◌&&◌, Option, none, some,
  List, [], ◌∷◌, ◌++◌, keep_if, not, zero, suc, ◌↔◌, Outcome, ok, err, In, In-append,
  In-append_left, In-append_right, arith, text_Eq, ◌==◌, if◌then◌else◌, Bool-cases, Option-cases,
  same-path,
}
use logic_operator.Prelude.Text.{sprintf, show_number}
use logic_operator.Api.Application.{PersistenceOptionsSpec}
use logic_operator.Api.Runtime.{LogicFlowRuntime}
use logic_operator.Controller.Pool.{
  Lease, Deployment, PoolServer, CreateError, already_exists, member_name, two_digits,
  reconcile_leases,
}
use logic_operator.Controller.Workload.{effective_replicas}
use logic_operator.Controller.Pool.Laws.{LeaseLaws, Has, final, state_of}
use logic_operator.Controller.Pool.Kept.{reconcile_leases_excess}
use logic_operator.Controller.Pool.Filled.{Accepts, reconcile_leases_live}
use logic_operator.Controller.Pool.Once.{reconcile_leases_once}
use logic_operator.Examples.Admissions.{runtime}

abbrev pub Leases : Type 0
Leases = List Lease

find : String → String → Leases → Option Lease
find namespace name [] = none
find namespace name (l ∷ leases) =
    let rest = find namespace name leases in
    if l.namespace == namespace && l.name == name then some l else rest

find_sound :
    (namespace name : String) (leases : Leases) (x : Lease)
    → find namespace name leases ≡ some x
    → In x leases × (x.namespace ≡ namespace) × (x.name ≡ name)
unfolding find
find_sound namespace name [] x h = absurd (ground (arith, h))
find_sound namespace name (l ∷ leases) x h =
    elim (Bool-cases (l.namespace == namespace && l.name == name)) [
      | inl e ↦
          let p : l ≡ x = ground (arith, e, h) in
          (
            inl (sym p),
            ground (arith, e, p, text_Eq.same_iff l.namespace namespace),
            ground (arith, e, p, text_Eq.same_iff l.name name),
          )
      | inr e ↦
          let (i, p, q) = find_sound namespace name leases x (ground (arith, e, h)) in (inr i, p, q)
    ]

find_complete :
    (namespace name : String) (leases : Leases) (x : Lease)
    → In x leases
    → x.namespace ≡ namespace
    → x.name ≡ name
    → find namespace name leases ≢ none
unfolding find
find_complete namespace name [] x i p q h = absurd i
find_complete namespace name (l ∷ leases) x (inl r) p q h =
    ground (arith, h, p, q, r, text_Eq.same_iff l.namespace namespace, text_Eq.same_iff l.name name)
find_complete namespace name (l ∷ leases) x (inr i) p q h =
    ground (arith, h, find_complete namespace name leases x i p q)

In-keep_if :
    {A : Type 0} (p : A → Bool) (x : A) (xs : List A) → In x (keep_if p xs) → In x xs × (p x ≡ true)
In-keep_if p x [] i = absurd i
In-keep_if p x (y ∷ ys) i = elim (Bool-cases (p y)) [
  | inl e ↦ elim (rw e at i) [
    | inl q ↦ (inl q, subst (λ z. p z ≡ true) (sym q) e)
    | inr j ↦ let (k, h) = In-keep_if p x ys j in (inr k, h)
  ]
  | inr e ↦ let (k, h) = In-keep_if p x ys (rw e at i) in (inr k, h)
]

pub create : Leases → Lease → Outcome (CreateError × Leases) Leases
unfolding find
create leases l = elim (find l.namespace l.name leases) [
  | none ↦ ok (leases ++ (l ∷ []))
  | some x ↦ err (already_exists, leases)
]

abbrev pub deployment : Deployment
deployment = record {
  name = "runner";
  uid = "u9";
  replicas = 2;
  ready_replicas = 2;
  updated_replicas = 2;
  conditions = [];
}

abbrev pub server : PoolServer Leases
server = record {
  get_deployment = λ w namespace name. ok deployment;
  list_leases = λ w namespace pool. ok (keep_if (λ (l : Lease). l.namespace == namespace) w);
  create_lease = create;
  delete_lease = λ w namespace name.
      ok (keep_if (λ (l : Lease). not (l.namespace == namespace && l.name == name)) w);
  create_service_account = λ w account. ok w;
  create_role_binding = λ w binding. ok w;
}

abbrev Stored : Leases → Lease → Type 0
Stored w x = In x w

create-cases :
    (w : Leases) (l : Lease)
    → (create w l ≡ ok (w ++ (l ∷ []))) × (find l.namespace l.name w ≡ none)
      ⊎ ((x : Lease) × (create w l ≡ err (already_exists, w))
          × (find l.namespace l.name w ≡ some x))
unfolding create
create-cases w l = elim (Option-cases (find l.namespace l.name w)) [
  | inl e ↦ inl (ground (arith, e), e)
  | inr (x, e) ↦ inr (x, ground (arith, e), e)
]

laws : LeaseLaws server Stored
laws = record {
  keeps = λ w l x i. elim (create-cases w l) [
    | inl (e, f) ↦ subst (λ o. In x (state_of o)) (sym e) (In-append_left x w (l ∷ []) i)
    | inr (y, e, f) ↦ subst (λ o. In x (state_of o)) (sym e) i
  ];
  adds = λ w l x. elim (create-cases w l) [
    | inl (e, f) ↦
        subst (λ o. In x (state_of o) → In x w ⊎ (x ≡ l)) (sym e)
          (λ i. elim (In-append x w (l ∷ []) i) [
            | inl j ↦ inl j
            | inr (inl p) ↦ inr p
            | inr (inr k) ↦ absurd k
          ])
    | inr (y, e, f) ↦ subst (λ o. In x (state_of o) → In x w ⊎ (x ≡ l)) (sym e) (λ i. inl i)
  ];
  created = λ w after l h. elim (create-cases w l) [
    | inl (e, f) ↦
        let p : w ++ (l ∷ []) ≡ after = ground (arith, e, h) in
        subst (λ v. In l v) p (In-append_right l w (l ∷ []) (inl refl))
    | inr (y, e, f) ↦ absurd (ground (arith, e, h))
  ];
  exists = λ w after l h. elim (create-cases w l) [
    | inl (e, f) ↦ absurd (ground (arith, e, h))
    | inr (y, e, f) ↦ let (i, p, q) = find_sound l.namespace l.name w y f in (y, i, p, q)
  ];
  conflict = λ w after l x i p q h. elim (create-cases w l) [
    | inl (e, f) ↦ find_complete l.namespace l.name w x i p q f
    | inr (y, e, f) ↦ absurd (ground (arith, e, h))
  ];
  unchanged = λ w after l x h i. elim (create-cases w l) [
    | inl (e, f) ↦ absurd (ground (arith, e, h))
    | inr (y, e, f) ↦ let p : w ≡ after = ground (arith, e, h) in subst (λ v. In x v) (sym p) i
  ];
  listed = λ w namespace pool items h x i.
      let p : keep_if (λ (l : Lease). l.namespace == namespace) w ≡ items = ground (arith, h) in
      let (j, k) =
        In-keep_if (λ (l : Lease). l.namespace == namespace) x w (subst (λ v. In x v) (sym p) i) in
      (j, same-path x.namespace namespace k);
}

abbrev pub persistence : PersistenceOptionsSpec
persistence = record { postgresql = none }

-- A durable runtime of two replicas
abbrev pub durable : LogicFlowRuntime
durable = record runtime {
  spec = record runtime.spec {
    persistence = some persistence;
    application = record runtime.spec.application { replicas = some 2; image = "" };
  };
}

accepts : Accepts server
accepts w l = elim (create-cases w l) [
  | inl (e, f) ↦ (w ++ (l ∷ []), ground (arith, e))
  | inr (x, e, f) ↦ (w, ground (arith, e))
]

reconcile_leases_live_example :
    (after : Leases) × (reconcile_leases server durable [] ≡ ok after)
    × ((j : ℕ)
        → j < effective_replicas durable.spec.application
        → Has Stored after "shop" (member_name "runner" j))
reconcile_leases_live_example =
    reconcile_leases_live server Stored laws durable [] persistence deployment [] refl refl refl
      accepts

-- A lease of an index that the pool has no longer
abbrev old_member : Lease
old_member = record {
  name = "flow-pool-member-runner-07";
  namespace = "shop";
  labels = [];
  owner = record { kind = "Deployment"; name = "runner"; uid = "u9"; controller = false };
  duration = 30;
}

-- The old member is not that of an index that two replicas use.
is_excess :
    (i : ℕ)
    → i < effective_replicas durable.spec.application
    → old_member.name ≢ member_name "runner" i
unfolding effective_replicas member_name two_digits sprintf show_number
is_excess zero below e =
    cc ((text_Eq.same_iff "flow-pool-member-runner-07" "flow-pool-member-runner-00").1 e)
is_excess (suc zero) below e =
    cc ((text_Eq.same_iff "flow-pool-member-runner-07" "flow-pool-member-runner-01").1 e)
is_excess (suc (suc i)) below e = absurd (omega (arith, below))

reconcile_leases_excess_example :
    In old_member (final (reconcile_leases server durable (old_member ∷ [])))
    ↔ In old_member (old_member ∷ [])
reconcile_leases_excess_example =
    reconcile_leases_excess server Stored laws durable (old_member ∷ []) old_member is_excess

run : (w : Leases) → (after : Leases) × (reconcile_leases server durable w ≡ ok after)
run w =
    let (after, done, members) =
      reconcile_leases_live server Stored laws durable w persistence deployment
        (keep_if (λ (l : Lease). l.namespace == "shop") w) refl refl refl accepts in
    (after, done)

abbrev once : Leases
once = (run (old_member ∷ [])).0

reconcile_leases_once_example : In old_member (run once).0 ↔ In old_member once
reconcile_leases_once_example =
    reconcile_leases_once server Stored laws durable (old_member ∷ []) once (run once).0 old_member
      (run (old_member ∷ [])).1 (run once).1
