-- ===== src/Gateway/Catalog/Build/Sound.antt =====
-- Where the endpoints of the two tables come from.
use logic_operator.Prelude.{
  String, ◌≡◌, refl, ◌≢◌, ◌⊎◌, some, List, [], ◌∷◌, arith, text_Eq, ◌==◌, Outcome, ok, In, inl, inr,
  Outcome-cases, Bool-cases,
}
use logic_operator.Prelude.Assoc.{get, get-put}
use logic_operator.Api.Definition.{LogicFlowDefinition}
use logic_operator.Api.Service.{LogicFlowService}
use logic_operator.Gateway.Routing.{WorkflowKey, Url, key_Eq}
use logic_operator.Gateway.Catalog.Urls.{ParsedUrl, validate_external_url}
use logic_operator.Gateway.Catalog.Build.{
  Build, DefinitionResolver, workflow_key_from_labels, referenced_definitions, claim,
  claim_definition, step_name, names_loop, step_service, services_loop, build_execution_endpoints,
  step_definition, definitions_loop, build_runtime_service_endpoints, runtime_service_url,
}

get-claim :
    (b : Build) (owner : String × String) (key k : WorkflowKey) (url u : Url)
    → get k (claim b owner key url).endpoints ≡ some u
    → (get k b.endpoints ≡ some u) ⊎ ((k ≡ key) × (u ≡ url))
unfolding claim
get-claim b owner key k url u h =
    ground (arith, get-put key k url b.endpoints, key_Eq.same_iff key k, text_Eq.same_iff url u)

-- Every endpoint of a table has the property `R`.
module _ (R : WorkflowKey → Url → Type 0) where
  abbrev Justified : Build → Type 0
  Justified b = (k : WorkflowKey) (u : Url) → get k b.endpoints ≡ some u → R k u

  claim-Justified :
      (b : Build) (owner : String × String) (key : WorkflowKey) (url : Url)
      → Justified b
      → R key url
      → Justified (claim b owner key url)
  claim-Justified b owner key url j r k u h = elim (get-claim b owner key k url u h) [
    | inl old ↦ j k u old
    | inr (same_key, same_url) ↦ rw (same_key, same_url) r
  ]

  claim_definition-Justified :
      (b : Build) (svc : LogicFlowService) (def : LogicFlowDefinition)
      → Justified b
      → ((key : WorkflowKey) → workflow_key_from_labels def ≡ ok key → R key svc.status.url)
      → Justified (claim_definition b svc def)
  unfolding claim_definition
  claim_definition-Justified b svc def j r = elim (Outcome-cases (workflow_key_from_labels def)) [
    | inl (key, e) ↦ rw (e, claim_definition) (claim-Justified b _ key _ j (r key e))
    | inr (x, e) ↦ rw (e, claim_definition) j
  ]

  definitions_loop-Justified :
      (b : Build) (definitions : List LogicFlowDefinition)
      → Justified b
      → ((def : LogicFlowDefinition) (key : WorkflowKey)
          → In def definitions
          → workflow_key_from_labels def ≡ ok key
          → def.spec.runtime_ref ≢ ""
          → R key (runtime_service_url def.spec.runtime_ref def.namespace))
      → Justified (definitions_loop b definitions)
  unfolding definitions_loop step_definition
  definitions_loop-Justified b [] j r = j
  definitions_loop-Justified b (def ∷ definitions) j r =
      definitions_loop-Justified (step_definition b def) definitions
        (elim (Outcome-cases (workflow_key_from_labels def)) [
          | inr (x, e) ↦ rw (e, step_definition) j
          | inl (key, e) ↦ elim (Bool-cases (def.spec.runtime_ref == "")) [
            | inl empty ↦ rw (e, step_definition) (rw empty j)
            | inr named ↦
                rw (e, step_definition)
                  (rw named (
                    claim-Justified b _ key _ j (
                      r def key (inl refl) e
                        (λ p. ground (arith, named, p, text_Eq.same_iff def.spec.runtime_ref "")))))
          ]
        ])
        (λ d key i. r d key (inr i))

  module _ (parse : String → Outcome String ParsedUrl) (resolve : DefinitionResolver) where
    names_loop-Justified :
        (svc : LogicFlowService) (b : Build) (names : List String)
        → Justified b
        → ((name : String) (def : LogicFlowDefinition) (key : WorkflowKey)
            → In name names
            → resolve svc.namespace name ≡ ok def
            → workflow_key_from_labels def ≡ ok key
            → R key svc.status.url)
        → Justified (names_loop parse resolve svc b names)
    unfolding names_loop step_name
    names_loop-Justified svc b [] j r = j
    names_loop-Justified svc b (name ∷ names) j r =
        names_loop-Justified svc (step_name parse resolve svc b name) names
          (elim (Outcome-cases (resolve svc.namespace name)) [
            | inr (x, e) ↦ rw (e, step_name) j
            | inl (def, e) ↦
                rw (e, step_name)
                  (claim_definition-Justified b svc def j (λ key k. r name def key (inl refl) e k))
          ])
          (λ n d key i. r n d key (inr i))

    services_loop-Justified :
        (b : Build) (services : List LogicFlowService)
        → Justified b
        → ((svc : LogicFlowService) (name : String) (def : LogicFlowDefinition) (key : WorkflowKey)
            → In svc services
            → validate_external_url parse svc.status.url ≡ ok tt
            → In name (referenced_definitions svc)
            → resolve svc.namespace name ≡ ok def
            → workflow_key_from_labels def ≡ ok key
            → R key svc.status.url)
        → Justified (services_loop parse resolve b services)
    unfolding services_loop step_service
    services_loop-Justified b [] j r = j
    services_loop-Justified b (svc ∷ services) j r =
        services_loop-Justified (step_service parse resolve b svc) services
          (elim (Bool-cases (svc.status.url == "")) [
            | inl empty ↦ rw (empty, step_service) j
            | inr there ↦ elim (Outcome-cases (validate_external_url parse svc.status.url)) [
              | inr (x, e) ↦ rw (there, step_service) (rw e j)
              | inl (u, e) ↦
                  rw (there, step_service)
                    (rw e (
                      names_loop-Justified svc b (referenced_definitions svc) j
                        (λ n d key i. r svc n d key (inl refl) e i)))
            ]
          ])
          (λ s n d key i. r s n d key (inr i))

-- Why a service gives `key` the endpoint `url`: it is in the list, its URL is external, and it
-- refers to a definition that is found and whose labels name the key.
pub record FromService (parse : String → Outcome String ParsedUrl) (resolve : DefinitionResolver)
    (services : List LogicFlowService) (key : WorkflowKey) (url : Url) : Type 0 where
  pub svc : LogicFlowService
  pub listed : In svc services
  pub address : url ≡ svc.status.url
  pub valid : validate_external_url parse svc.status.url ≡ ok tt
  pub name : String
  pub referenced : In name (referenced_definitions svc)
  pub def : LogicFlowDefinition
  pub resolved : resolve svc.namespace name ≡ ok def
  pub labelled : workflow_key_from_labels def ≡ ok key

-- Each endpoint that `BuildExecutionEndpoints` sets is the URL of a listed service, accepted by
-- `ValidateExternalURL`, that refers to a definition with the labels of the key.
pub build_execution_endpoints-FromService :
    (parse : String → Outcome String ParsedUrl) (resolve : DefinitionResolver)
    (services : List LogicFlowService) (key : WorkflowKey) (url : Url)
    → get key (build_execution_endpoints parse resolve services).endpoints ≡ some url
    → FromService parse resolve services key url
unfolding build_execution_endpoints
build_execution_endpoints-FromService parse resolve services key url h =
    services_loop-Justified (FromService parse resolve services) parse resolve
      (record { endpoints = []; errors = [] }) services (λ k u e. absurd (unfold get in cc e))
      (λ svc n d k i v m r l. record {
        svc = svc;
        listed = i;
        address = refl;
        valid = v;
        name = n;
        referenced = m;
        def = d;
        resolved = r;
        labelled = l;
      })
      key url h

-- Why a definition gives `key` the endpoint `url`: its labels name the key and it names a runtime,
-- whose Service in the namespace of the definition is the endpoint.
pub record FromDefinition (definitions : List LogicFlowDefinition) (key : WorkflowKey) (url : Url)
    : Type 0 where
  pub def : LogicFlowDefinition
  pub listed : In def definitions
  pub labelled : workflow_key_from_labels def ≡ ok key
  pub targeted : def.spec.runtime_ref ≢ ""
  pub address : url ≡ runtime_service_url def.spec.runtime_ref def.namespace

-- Each endpoint that `BuildRuntimeServiceEndpoints` sets is the Service of the runtime of a listed
-- definition with the labels of the key.
pub build_runtime_service_endpoints-FromDefinition :
    (definitions : List LogicFlowDefinition) (key : WorkflowKey) (url : Url)
    → get key (build_runtime_service_endpoints definitions).endpoints ≡ some url
    → FromDefinition definitions key url
unfolding build_runtime_service_endpoints
build_runtime_service_endpoints-FromDefinition definitions key url h =
    definitions_loop-Justified (FromDefinition definitions) (record { endpoints = []; errors = [] })
      definitions (λ k u e. absurd (unfold get in cc e))
      (λ d k i l t. record { def = d; listed = i; labelled = l; targeted = t; address = refl }) key
      url h
