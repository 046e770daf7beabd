-- ===== src/Admission/Service/Accepts.antt =====
-- The LogicFlowServices that are accepted.
use logic_operator.Prelude.{
  String, ◌≡◌, refl, ◌≢◌, ◌↔◌, ◌⊎◌, Bool, true, false, none, some, List, [], ◌∷◌, Outcome, ok,
  text_Eq, number_Eq, inl, inr, All, arith, Bool-cases, Option-cases,
}
use logic_operator.Api.Definition.{LogicFlowDefinition, Workflow}
use logic_operator.Api.Service.{LogicFlowService, TlsSpec, CertManagerIssuerRef, total_weight}
use logic_operator.Admission.Service.{
  has_items, has_default, validate_traffic_config, validate_ingress, validate_tls,
  resolve_definition_refs, validate_definitions, validate,
}
use logic_operator.Admission.Service.Versions.{
  IsVersion, definitions_loop_sound, definitions_loop_complete,
}

-- The services that are accepted: traffic whose weights add up to 100 or a default definition, not
-- both; a host where an Ingress needs one, of class nginx; one source of the certificate; and
-- definitions that are versions of one workflow on one runtime.
pub record IsAccepted {E : Type 0} (from_json : String → Outcome String Workflow)
    (fetch : String → String → Outcome E LogicFlowDefinition) (open_shift : Bool)
    (svc : LogicFlowService) : Type 0 where
  pub traffic :
      ((svc.spec.traffic ≢ []) × (has_default svc ≡ false) × (total_weight svc.spec ≡ 100))
      ⊎ ((svc.spec.traffic ≡ []) × (has_default svc ≡ true))
  pub host :
      (svc.spec.ingress.gateway_ref ≢ none) ⊎ ((open_shift ≡ true) ⊎ (svc.spec.ingress.host ≢ ""))
  pub class : (c : String) → svc.spec.ingress.ingress_class_name ≡ some c → c ≡ "nginx"
  pub certificate :
      (issuer : CertManagerIssuerRef)
      → svc.spec.ingress.tls.enabled ≡ true
      → svc.spec.ingress.tls.cert_manager ≡ some issuer
      → (svc.spec.ingress.tls.secret_ref ≡ "") × (issuer.name ≢ "")
  pub runtime : String
  pub workflow : String
  pub versions :
      All (IsVersion from_json fetch svc.namespace runtime workflow) (resolve_definition_refs svc)

has_items_iff : {A : Type 0} (xs : List A) → (has_items xs ≡ true) ↔ (xs ≢ [])
has_items_iff [] = ground arith
has_items_iff (x ∷ xs) = ground arith

traffic_iff :
    (svc : LogicFlowService)
    → (validate_traffic_config svc ≡ ok tt) ↔ (
        ((svc.spec.traffic ≢ []) × (has_default svc ≡ false) × (total_weight svc.spec ≡ 100))
        ⊎ ((svc.spec.traffic ≡ []) × (has_default svc ≡ true)))
unfolding validate_traffic_config
traffic_iff svc =
    ground (arith, has_items_iff svc.spec.traffic, number_Eq.same_iff (total_weight svc.spec) 100)

ingress_iff :
    (open_shift : Bool) (svc : LogicFlowService)
    → (validate_ingress open_shift svc ≡ ok tt) ↔ (
        ((svc.spec.ingress.gateway_ref ≢ none)
          ⊎ ((open_shift ≡ true) ⊎ (svc.spec.ingress.host ≢ "")))
        × ((c : String) → svc.spec.ingress.ingress_class_name ≡ some c → c ≡ "nginx"))
unfolding validate_ingress
ingress_iff open_shift svc = elim (Option-cases svc.spec.ingress.ingress_class_name) [
  | inl absent ↦ (
    λ h. (
      ground (arith, h, absent, text_Eq.same_iff svc.spec.ingress.host ""),
      λ c p. ground (arith, absent, p),
    ),
    λ w. ground (arith, w, absent, text_Eq.same_iff svc.spec.ingress.host ""),
  )
  | inr (class, named) ↦ (
    λ h. (
      ground (
        arith,
        h,
        named,
        text_Eq.same_iff svc.spec.ingress.host "",
        text_Eq.same_iff class "nginx",
      ),
      λ c p. ground (
        arith,
        h,
        named,
        p,
        text_Eq.same_iff svc.spec.ingress.host "",
        text_Eq.same_iff class "nginx",
      ),
    ),
    λ w. ground (
      arith,
      w.0,
      w.1 class named,
      named,
      text_Eq.same_iff svc.spec.ingress.host "",
      text_Eq.same_iff class "nginx",
    ),
  )
]

tls_iff :
    (tls : TlsSpec)
    → (validate_tls tls ≡ ok tt) ↔ (
        (issuer : CertManagerIssuerRef)
        → tls.enabled ≡ true
        → tls.cert_manager ≡ some issuer
        → (tls.secret_ref ≡ "") × (issuer.name ≢ ""))
unfolding validate_tls
tls_iff tls = elim (Option-cases tls.cert_manager) [
  | inl absent ↦ (λ h issuer on p. ground (arith, absent, p), λ w. ground (arith, absent))
  | inr (issuer, there) ↦ (
    λ h i on p. ground (
      arith,
      h,
      there,
      on,
      p,
      text_Eq.same_iff tls.secret_ref "",
      text_Eq.same_iff issuer.name "",
    ),
    λ w. elim (Bool-cases tls.enabled) [
      | inl on ↦ ground (
        arith,
        w issuer on there,
        there,
        on,
        text_Eq.same_iff tls.secret_ref "",
        text_Eq.same_iff issuer.name "",
      )
      | inr off ↦ ground (arith, off)
    ],
  )
]

-- A LogicFlowService passes `validate` exactly when it has either traffic whose weights add up to
-- 100 or a default definition, and not both; a host, unless it has a Gateway or is on OpenShift; no
-- ingress class but nginx; with TLS and a certificate issuer, an issuer with a name and no secret;
-- and references to definitions that are all there, on one runtime, and of one workflow wherever
-- the workflow is known.
pub validate-IsAccepted :
    {E : Type 0} (from_json : String → Outcome String Workflow)
    (fetch : String → String → Outcome E LogicFlowDefinition) (open_shift : Bool)
    (svc : LogicFlowService)
    → (validate from_json fetch open_shift svc ≡ ok tt) ↔ IsAccepted from_json fetch open_shift svc
unfolding validate validate_definitions
validate-IsAccepted from_json fetch open_shift svc = (
  λ h.
      let traffic_ok : validate_traffic_config svc ≡ ok tt = ground (arith, h) in
      let ingress_ok : validate_ingress open_shift svc ≡ ok tt = ground (arith, h) in
      let tls_ok : validate_tls svc.spec.ingress.tls ≡ ok tt = ground (arith, h) in
      let (r, w, on, of, all) =
        definitions_loop_sound from_json fetch svc.namespace true "" ""
          (resolve_definition_refs svc) (ground (arith, h)) in
      record {
        traffic = (traffic_iff svc).0 traffic_ok;
        host = ((ingress_iff open_shift svc).0 ingress_ok).0;
        class = ((ingress_iff open_shift svc).0 ingress_ok).1;
        certificate = (tls_iff svc.spec.ingress.tls).0 tls_ok;
        runtime = r;
        workflow = w;
        versions = all;
      },
  λ x. ground (
    arith,
    (traffic_iff svc).1 x.traffic,
    (ingress_iff open_shift svc).1 (x.host, x.class),
    (tls_iff svc.spec.ingress.tls).1 x.certificate,
    definitions_loop_complete from_json fetch svc.namespace true "" "" x.runtime x.workflow
        (resolve_definition_refs svc) (inl refl) (inl refl) x.versions,
  ),
)
