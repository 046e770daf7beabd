-- ===== src/Gateway/Lease.antt =====
-- workflow-gateway/internal/lease/resolver.go
use logic_operator.Prelude.{
  String, Option, none, some, ◌==◌, text_Eq, if◌then◌else◌, Outcome, ok, err, ◌≡◌, ◌≢◌, ◌↔◌, arith,
  inl, inr, Outcome-cases,
}
use logic_operator.Api.Client.{GetError, not_found, other_error}

-- coordinationv1.Lease, as far as it is read
pub record Lease : Type 0 where
  pub holder_identity : Option String

-- The holder, absent and empty alike
abbrev holder : Option String → Option String
holder none = none
holder (some pod) = if pod == "" then none else some pod

-- PodFor, over the client's `Get` of a namespace and a name
unfoldable pub pod_for :
    (String → String → Outcome GetError Lease) → String → String → Outcome String (Option String)
pod_for get_lease namespace lease_id = elim (get_lease namespace lease_id) [
  | ok lease ↦ ok (holder lease.holder_identity)
  | err not_found ↦ ok none
  | err (other_error message) ↦ err message
]

-- `PodFor` finds a pod exactly when the lease is there with a holder that is not empty. (An API
-- failure is an error, a lease that is absent or not held is no pod.)
pub pod_for-some :
    (get_lease : String → String → Outcome GetError Lease) (namespace lease_id pod : String)
    → (pod_for get_lease namespace lease_id ≡ ok (some pod)) ↔ (
        (lease : Lease) × (get_lease namespace lease_id ≡ ok lease)
        × (lease.holder_identity ≡ some pod)
        × (pod ≢ ""))
unfolding pod_for
pod_for-some get_lease namespace lease_id pod = (
  λ h. elim (Outcome-cases (get_lease namespace lease_id)) [
    | inl (lease, e) ↦
        (lease, e, ground (arith, e, h), λ p. ground (arith, e, h, text_Eq.same_iff pod ""))
    | inr (not_found, e) ↦ absurd (ground (arith, e, h))
    | inr (other_error m, e) ↦ absurd (ground (arith, e, h))
  ],
  λ w. let (lease, e, held, ne) = w in ground (arith, e, held, ne, text_Eq.same_iff pod ""),
)
