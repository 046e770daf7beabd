-- ===== src/Admission/Runtime.antt =====
-- api/v1/validation.go and logicflowruntime_webhook.go
use logic_operator.Prelude.{
  ℕ, String, ◌≡◌, refl, ◌≢◌, Bool, true, false, not, ◌&&◌, Option, none, some, List, [], ◌∷◌,
  Outcome, ok, err, ◌>>◌, text_Eq, ◌==◌, if◌then◌else◌, is_some, arith,
}
use logic_operator.Prelude.Text.{codes, begins_with, ends_with}
use logic_operator.Api.Application.{PersistenceOptionsSpec}
use logic_operator.Api.Runtime.{
  LogicFlowRuntime, RuntimeSecuritySpec, security_api_key, security_oidc, OidcAuthSpec, ApiKeySpec,
}

pub data RuntimeError : Type 0 where
  keys_required oidc_required server_required client_required : RuntimeError
  -- image
  persistence_unsupported persistence_needed : String → RuntimeError

-- isKnownRunnerImage
unfoldable pub is_known_runner_image : String → Bool
is_known_runner_image image =
    begins_with (codes image) (codes "quay.io/quarkiverse/quarkus-flow-runner:")

-- HasPersistence
unfoldable pub has_persistence : Option PersistenceOptionsSpec → Bool
has_persistence none = false
has_persistence (some p) = is_some p.postgresql

-- ValidateRunnerImage
unfoldable pub validate_runner_image :
    String → Option PersistenceOptionsSpec → Outcome RuntimeError (Unit {0})
validate_runner_image image persistence =
    if not (is_known_runner_image image)
    then ok tt
    else if ends_with (codes image) (codes "-minimal") && has_persistence persistence
    then err (persistence_unsupported image)
    else if ends_with (codes image) (codes "-standard") && not (has_persistence persistence)
    then err (persistence_needed image)
    else ok tt

abbrev pub check_keys : Option (List ApiKeySpec) → Outcome RuntimeError (Unit {0})
check_keys none = err keys_required
check_keys (some []) = err keys_required
check_keys (some (k ∷ keys)) = ok tt

abbrev pub check_oidc : Option OidcAuthSpec → Outcome RuntimeError (Unit {0})
check_oidc none = err oidc_required
check_oidc (some oidc) =
    if oidc.auth_server_url == ""
    then err server_required
    else if oidc.client_id == ""
    then err client_required
    else ok tt

-- ValidateSecuritySpec
unfoldable pub validate_security_spec : RuntimeSecuritySpec → Outcome RuntimeError (Unit {0})
validate_security_spec sec = elim sec.kind [
  | security_api_key ↦ check_keys sec.api_key
  | security_oidc ↦ check_oidc sec.oidc
  | _ ↦ ok tt
]

abbrev pub default_replicas : Option ℕ → Option ℕ
default_replicas none = some 1
default_replicas (some n) = some n

-- ApplyLogicFlowRuntimeDefaults
unfoldable pub apply_logic_flow_runtime_defaults : LogicFlowRuntime → LogicFlowRuntime
apply_logic_flow_runtime_defaults obj = record obj {
  spec = record obj.spec {
    application = record obj.spec.application {
      replicas = default_replicas obj.spec.application.replicas;
    };
  };
}

-- validate of LogicFlowRuntimeValidator, the same for a create and an update
unfoldable pub validate : LogicFlowRuntime → Outcome RuntimeError (Unit {0})
unfolding validate_security_spec validate_runner_image
validate obj =
    validate_security_spec obj.spec.security
    >> (if obj.spec.application.image == ""
        then ok tt
        else validate_runner_image obj.spec.application.image obj.spec.persistence)

-- What an accepted runtime has
pub record IsUsable (obj : LogicFlowRuntime) : Type 0 where
  pub keys :
      obj.spec.security.kind ≡ security_api_key
      → (k : ApiKeySpec) × (more : List ApiKeySpec) × (obj.spec.security.api_key ≡ some (k ∷ more))
  pub oidc :
      obj.spec.security.kind ≡ security_oidc
      → (o : OidcAuthSpec) × (obj.spec.security.oidc ≡ some o)
        × (o.auth_server_url ≢ "")
        × (o.client_id ≢ "")
  pub minimal :
      is_known_runner_image obj.spec.application.image ≡ true
      → ends_with (codes obj.spec.application.image) (codes "-minimal") ≡ true
      → has_persistence obj.spec.persistence ≡ false
  pub standard :
      is_known_runner_image obj.spec.application.image ≡ true
      → ends_with (codes obj.spec.application.image) (codes "-standard") ≡ true
      → has_persistence obj.spec.persistence ≡ true

keys_of :
    (o : Option (List ApiKeySpec))
    → check_keys o ≡ ok tt
    → (k : ApiKeySpec) × (more : List ApiKeySpec) × (o ≡ some (k ∷ more))
keys_of none h = absurd (ground (arith, h))
keys_of (some []) h = absurd (ground (arith, h))
keys_of (some (k ∷ more)) h = (k, more, refl)

oidc_of :
    (x : Option OidcAuthSpec)
    → check_oidc x ≡ ok tt
    → (o : OidcAuthSpec) × (x ≡ some o) × (o.auth_server_url ≢ "") × (o.client_id ≢ "")
oidc_of none h = absurd (ground (arith, h))
oidc_of (some o) h = (
  o,
  refl,
  λ p. ground (arith, h, p, text_Eq.same_iff o.auth_server_url ""),
  λ p. ground (arith, h, p, text_Eq.same_iff o.client_id ""),
)

begins_empty : is_known_runner_image "" ≡ false
unfolding is_known_runner_image begins_with
begins_empty = refl

pub security_of :
    (obj : LogicFlowRuntime)
    → validate obj ≡ ok tt
    → (validate_security_spec obj.spec.security ≡ ok tt)
      × (validate_runner_image obj.spec.application.image obj.spec.persistence ≡ ok tt)
unfolding validate validate_runner_image
security_of obj h = (
  ground (arith, h),
  ground (arith, h, begins_empty, text_Eq.same_iff obj.spec.application.image ""),
)

-- A LogicFlowRuntime that passes `validate` has keys if it asks for them, a server and a client if
-- it asks for OpenID Connect, and persistence as its image of the known runner wants it: none for a
-- tag that ends in -minimal, some for one that ends in -standard.
pub validate-IsUsable : (obj : LogicFlowRuntime) → validate obj ≡ ok tt → IsUsable obj
unfolding validate_security_spec validate_runner_image
validate-IsUsable obj h =
    let (secure, image) = security_of obj h in
    record {
      keys = λ k. keys_of obj.spec.security.api_key (ground (arith, k, secure));
      oidc = λ k. oidc_of obj.spec.security.oidc (ground (arith, k, secure));
      minimal = λ known m. ground (arith, known, m, image);
      standard = λ known m. ground (arith, known, m, image);
    }
