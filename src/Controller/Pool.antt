-- ===== src/Controller/Pool.antt =====
-- The leases of a durable pool: reconcileLeases, reconcilePodRBAC and the objects that they create,
-- of internal/controller/logicflowruntime_controller.go and logicflowruntime_objects.go. The state
-- of the cluster is `W`; what the API server does to it is the parameter `server`. Replicas are not
-- negative, which the schema of the resource refuses.
pub mod Laws
pub mod Kept
pub mod Filled
pub mod Once
use logic_operator.Prelude.{
  ℕ, zero, suc, String, Bool, true, false, Option, none, some, List, [], ◌∷◌, map, Outcome, ok, err,
  ◌>>=◌, text_Eq, ◌==◌, if◌then◌else◌, ltb,
}
use logic_operator.Prelude.Assoc.{Assoc}
use logic_operator.Prelude.Text.{sprintf, show_number}
use logic_operator.Api.Client.{GetError, not_found, other_error}
use logic_operator.Api.Conditions.{Status}
use logic_operator.Api.Runtime.{LogicFlowRuntime}
use logic_operator.Controller.Objects.{Object, Owner, owner_ref}
use logic_operator.Controller.Workload.{effective_replicas}

-- coordinationv1.Lease, as the operator creates it
pub record Lease : Type 0 where
  pub name : String
  pub namespace : String
  pub labels : Assoc String String
  pub owner : Owner
  pub duration : ℕ

-- appsv1.DeploymentCondition
pub record DeploymentCondition : Type 0 where
  pub kind : String
  pub status : Status
  pub reason : String
  pub message : String

-- appsv1.Deployment, as it is read
pub record Deployment : Type 0 where
  pub name : String
  pub uid : String
  pub replicas : ℕ
  pub ready_replicas : ℕ
  pub updated_replicas : ℕ
  pub conditions : List DeploymentCondition

pub record ServiceAccount : Type 0 where
  pub name : String
  pub namespace : String
  pub owner : Owner

-- rbacv1.RoleBinding of one service account
pub record RoleBinding : Type 0 where
  pub name : String
  pub namespace : String
  pub owner : Owner
  pub cluster_role : String
  pub service_account : String

pub data CreateError : Type 0 where
  already_exists : CreateError
  create_failed : String → CreateError

-- A step on the cluster, which may fail with a text and leaves a state in either case
abbrev pub Step : Type 0 → Type 0
Step W = Outcome (String × W) W

pub record PoolServer (W : Type 0) : Type 0 where
  pub get_deployment : W → String → String → Outcome GetError Deployment
  -- by namespace and value of the pool label
  pub list_leases : W → String → String → Outcome String (List Lease)
  pub create_lease : W → Lease → Outcome (CreateError × W) W
  -- by namespace and name
  pub delete_lease : W → String → String → Step W
  pub create_service_account : W → ServiceAccount → Outcome (CreateError × W) W
  pub create_role_binding : W → RoleBinding → Outcome (CreateError × W) W

-- What follows a creation: that the object exists already is no failure.
abbrev pub tolerate : {W : Type 0} → Outcome (CreateError × W) W → Step W
tolerate (ok w) = ok w
tolerate (err (already_exists, w)) = ok w
tolerate (err (create_failed message, w)) = err (message, w)

abbrev pub object_of : LogicFlowRuntime → Object
object_of rt = record { name = rt.name; namespace = rt.namespace; uid = rt.uid; labels = rt.labels }

-- `%02d`
unfoldable pub two_digits : ℕ → String
unfolding sprintf
two_digits n = if ltb n 10 then sprintf ("0" ∷ show_number n ∷ []) else show_number n

-- The name of a lease of the pool, by LeaseMemberNameFmt
unfoldable pub member_name : String → ℕ → String
unfolding sprintf two_digits
member_name pool i = sprintf ("flow-pool-member-" ∷ pool ∷ "-" ∷ two_digits i ∷ [])

-- memberLeaseLabels
unfoldable pub member_lease_labels : String → Assoc String String
member_lease_labels pool =
    ("app.kubernetes.io/managed-by", "quarkus-flow")
    ∷ ("app.kubernetes.io/component", "durable")
    ∷ ("io.quarkiverse.flow.durable.k8s/pool", pool)
    ∷ ("io.quarkiverse.flow.durable.k8s/is-leader", "false")
    ∷ []

-- newMemberLease
unfoldable pub new_member_lease : String → String → String → Deployment → Lease
unfolding member_lease_labels
new_member_lease name namespace pool dep = record {
  name = name;
  namespace = namespace;
  labels = member_lease_labels pool;
  owner = record { kind = "Deployment"; name = dep.name; uid = dep.uid; controller = false };
  duration = 30;
}

-- The Deployment for the owner references: one that is not found is no failure.
abbrev pub found_deployment : Outcome GetError Deployment → Outcome String (Option Deployment)
found_deployment (ok dep) = ok (some dep)
found_deployment (err not_found) = ok none
found_deployment (err (other_error message)) = err message

unfoldable pub has_name : String → List String → Bool
has_name name [] = false
has_name name (s ∷ names) = let rest = has_name name names in if s == name then true else rest

module _ {W : Type 0} (server : PoolServer W) where
  -- One pass of the loop of reconcileLeases, for the lease of this name
  unfoldable pub ensure_lease :
      LogicFlowRuntime → Option Deployment → List String → W → String → Step W
  unfolding new_member_lease has_name
  ensure_lease rt dep existing w name = if has_name name existing then ok w else elim dep [
    | none ↦ ok w
    | some d ↦ tolerate (server.create_lease w (new_member_lease name rt.namespace rt.name d))
  ]

  -- The loop of reconcileLeases over the `count` indices from `i`
  unfoldable pub lease_loop :
      LogicFlowRuntime → Option Deployment → List String → ℕ → ℕ → W → Step W
  unfolding ensure_lease member_name
  lease_loop rt dep existing i zero w = ok w
  lease_loop rt dep existing i (suc count) w =
      ensure_lease rt dep existing w (member_name rt.name i)
      >>= lease_loop rt dep existing (suc i) count

  abbrev pub names_of : List Lease → List String
  names_of leases = map (λ (l : Lease). l.name) leases

  -- reconcileLeases of a runtime with persistence
  unfoldable pub fill_pool : LogicFlowRuntime → W → Step W
  unfolding lease_loop effective_replicas
  fill_pool rt w = elim (found_deployment (server.get_deployment w rt.namespace rt.name)) [
    | err message ↦ err (message, w)
    | ok dep ↦ elim (server.list_leases w rt.namespace rt.name) [
      | err message ↦ err (message, w)
      | ok leases ↦ lease_loop rt dep (names_of leases) 0 (effective_replicas rt.spec.application) w
    ]
  ]

  -- reconcileLeases
  unfoldable pub reconcile_leases : LogicFlowRuntime → W → Step W
  unfolding fill_pool
  reconcile_leases rt w = elim rt.spec.persistence [ none ↦ ok w | some _ ↦ fill_pool rt w ]

  -- The two objects of reconcilePodRBAC
  abbrev pub service_account_of : LogicFlowRuntime → ServiceAccount
  service_account_of rt = record {
    name = rt.name;
    namespace = rt.namespace;
    owner = owner_ref (object_of rt) "LogicFlowRuntime";
  }

  abbrev pub role_binding_of : LogicFlowRuntime → RoleBinding
  role_binding_of rt = record {
    name = sprintf (rt.name ∷ "-durable" ∷ []);
    namespace = rt.namespace;
    owner = owner_ref (object_of rt) "LogicFlowRuntime";
    cluster_role = "logic-operator-logic-flow-runtime-durable";
    service_account = rt.name;
  }

  -- reconcilePodRBAC
  unfoldable pub reconcile_pod_rbac : LogicFlowRuntime → W → Step W
  unfolding owner_ref sprintf
  reconcile_pod_rbac rt w = elim rt.spec.persistence [
    | none ↦ ok w
    | some _ ↦ tolerate (server.create_service_account w (service_account_of rt)) >>= λ after.
        tolerate (server.create_role_binding after (role_binding_of rt))
  ]
