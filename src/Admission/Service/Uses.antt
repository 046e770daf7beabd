-- ===== src/Admission/Service/Uses.antt =====
-- What the rest of the system may rely on in an accepted LogicFlowService.
use logic_operator.Prelude.{
  String, ◌≡◌, ◌↔◌, Bool, List, [], ◌∷◌, Outcome, ok, text_Eq, ◌==◌, is_some, inl, inr, In, All-In,
  arith, Option-cases, Bool-cases,
}
use logic_operator.Api.Definition.{LogicFlowDefinition, Workflow}
use logic_operator.Api.Service.{LogicFlowService, TrafficSpec}
use logic_operator.Gateway.Catalog.Build.{referenced_definitions, traffic_names}
use logic_operator.Admission.Service.{
  resolve_definition_refs, refs_of, validate, validate_update, validate_gateway_ref_immutable,
}
use logic_operator.Admission.Service.Accepts.{IsAccepted, validate-IsAccepted}
use logic_operator.Admission.Service.Versions.{IsVersion}

traffic_names-refs_of :
    (traffic : List TrafficSpec) (name : String)
    → In name (traffic_names traffic)
    → In name (refs_of traffic)
unfolding traffic_names
traffic_names-refs_of [] name i = absurd i
traffic_names-refs_of (t ∷ traffic) name i = elim (Bool-cases (t.definition_ref == "")) [
  | inl e ↦ inr (traffic_names-refs_of traffic name (rw e at i))
  | inr e ↦ elim (rw e at i) [ inl p ↦ inl p | inr j ↦ inr (traffic_names-refs_of traffic name j) ]
]

referenced-resolved :
    (svc : LogicFlowService) (name : String)
    → In name (referenced_definitions svc)
    → In name (resolve_definition_refs svc)
unfolding referenced_definitions resolve_definition_refs
referenced-resolved svc name i = elim (Option-cases svc.spec.default_definition) [
  | inl absent ↦ ground (arith, absent, i, traffic_names-refs_of svc.spec.traffic name)
  | inr (d, there) ↦ ground (arith, there, i, traffic_names-refs_of svc.spec.traffic name)
]

module _ {E : Type 0} (from_json : String → Outcome String Workflow)
    (fetch : String → String → Outcome E LogicFlowDefinition) (open_shift : Bool) where
  -- The definitions that the gateway routes to a service that passes `validate` are all there, on
  -- one runtime, and versions of one workflow, unless their workflow is not known.
  pub referenced_definitions-IsVersion :
      (svc : LogicFlowService)
      → validate from_json fetch open_shift svc ≡ ok tt
      → (runtime : String) × (workflow : String) × ((name : String)
          → In name (referenced_definitions svc)
          → IsVersion from_json fetch svc.namespace runtime workflow name)
  referenced_definitions-IsVersion svc h =
      let x = (validate-IsAccepted from_json fetch open_shift svc).0 h in
      (
        x.runtime,
        x.workflow,
        λ name i.
            All-In (IsVersion from_json fetch svc.namespace x.runtime x.workflow)
              (resolve_definition_refs svc) name x.versions (referenced-resolved svc name i),
      )

  -- An update passes exactly when the new service would be accepted by itself and neither adds nor
  -- removes the reference to a Gateway.
  pub validate_update-IsAccepted :
      (old new : LogicFlowService)
      → (validate_update from_json fetch open_shift old new ≡ ok tt) ↔ (
          (is_some old.spec.ingress.gateway_ref ≡ is_some new.spec.ingress.gateway_ref)
          × IsAccepted from_json fetch open_shift new)
  unfolding validate_update validate_gateway_ref_immutable
  validate_update-IsAccepted old new = (
    λ h. (
      ground (arith, h),
      (validate-IsAccepted from_json fetch open_shift new).0 (ground (arith, h)),
    ),
    λ w. ground (arith, w.0, (validate-IsAccepted from_json fetch open_shift new).1 w.1),
  )
