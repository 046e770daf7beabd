-- ===== src/Admission/Service.antt =====
-- api/v1/logicflowservice_webhook.go. An error keeps what its message prints. `open_shift` is
-- `utils.IsOpenShift()`, `fetch` the client's `Get` of a definition by namespace and name, and
-- `from_json` the parser of the sdk.
pub mod Versions
pub mod Accepts
pub mod Uses
use logic_operator.Prelude.{
  ℕ, String, Bool, true, false, not, ◌&&◌, Option, none, some, List, [], ◌∷◌, Outcome, ok, err,
  ◌>>◌, text_Eq, number_Eq, ◌==◌, if◌then◌else◌, is_some, map,
}
use logic_operator.Api.Definition.{LogicFlowDefinition, Workflow, parse_flow, label_workflow_name}
use logic_operator.Api.Service.{
  LogicFlowService, TrafficSpec, TlsSpec, CertManagerIssuerRef, total_weight,
}
use logic_operator.Gateway.Catalog.Build.{label}

pub data ServiceError : Type 0 where
  both_traffic_and_default neither_traffic_nor_default : ServiceError
  weights : ℕ → ServiceError
  host_required : ServiceError
  ingress_class : String → ServiceError
  secret_and_cert_manager issuer_required : ServiceError
  definition_missing : String → ServiceError
  -- definition, its runtime or workflow, the expected one
  other_runtime other_workflow : String → String → String → ServiceError
  gateway_ref_changed : ServiceError

abbrev pub has_items {ℓ} : {A : Type ℓ} → List A → Bool
has_items [] = false
has_items (x ∷ xs) = true

abbrev pub has_default : LogicFlowService → Bool
has_default svc = elim svc.spec.default_definition [ none ↦ false | some name ↦ not (name == "") ]

-- validateTrafficConfig
unfoldable pub validate_traffic_config : LogicFlowService → Outcome ServiceError (Unit {0})
validate_traffic_config svc =
    if has_items svc.spec.traffic && has_default svc
    then err both_traffic_and_default
    else if not (has_items svc.spec.traffic) && not (has_default svc)
    then err neither_traffic_nor_default
    else if has_items svc.spec.traffic && not (total_weight svc.spec == 100)
    then err (weights (total_weight svc.spec))
    else ok tt

-- validateIngress
unfoldable pub validate_ingress : Bool → LogicFlowService → Outcome ServiceError (Unit {0})
validate_ingress open_shift svc =
    if not (is_some svc.spec.ingress.gateway_ref) && (not open_shift && svc.spec.ingress.host == "")
    then err host_required
    else (elim svc.spec.ingress.ingress_class_name [
      | none ↦ ok tt
      | some class ↦ if class == "nginx" then ok tt else err (ingress_class class)
    ])

-- validateTLS
unfoldable pub validate_tls : TlsSpec → Outcome ServiceError (Unit {0})
validate_tls tls = if not tls.enabled then ok tt else (elim tls.cert_manager [
  | none ↦ ok tt
  | some issuer ↦
      if not (tls.secret_ref == "")
      then err secret_and_cert_manager
      else if issuer.name == ""
      then err issuer_required
      else ok tt
])

abbrev pub refs_of : List TrafficSpec → List String
refs_of [] = []
refs_of (t ∷ traffic) = t.definition_ref ∷ refs_of traffic

-- resolveDefinitionRefs
unfoldable pub resolve_definition_refs : LogicFlowService → List String
resolve_definition_refs svc = elim svc.spec.default_definition [
  | none ↦ refs_of svc.spec.traffic
  | some name ↦ if name == "" then refs_of svc.spec.traffic else name ∷ []
]

-- validateGatewayRefImmutable
unfoldable pub validate_gateway_ref_immutable :
    LogicFlowService → LogicFlowService → Outcome ServiceError (Unit {0})
validate_gateway_ref_immutable old new =
    if is_some old.spec.ingress.gateway_ref
    then (if is_some new.spec.ingress.gateway_ref then ok tt else err gateway_ref_changed)
    else (if is_some new.spec.ingress.gateway_ref then err gateway_ref_changed else ok tt)

module _ (from_json : String → Outcome String Workflow) where
  -- resolveWorkflowName
  unfoldable pub resolve_workflow_name : LogicFlowDefinition → String
  resolve_workflow_name def =
      if label def label_workflow_name == ""
      then (elim (parse_flow from_json def.spec) [ ok wf ↦ wf.document_name | err e ↦ "" ])
      else label def label_workflow_name

  -- The checks of one definition in the loop, on the names of the runtime and of the workflow so far
  unfoldable pub check_definition :
      Bool → String → String → String → LogicFlowDefinition → Outcome ServiceError (String × String)
  check_definition first runtime workflow ref def =
      if not first && not (def.spec.runtime_ref == runtime)
      then err (other_runtime ref def.spec.runtime_ref runtime)
      else if resolve_workflow_name def == ""
      then ok (def.spec.runtime_ref, workflow)
      else if workflow == ""
      then ok (def.spec.runtime_ref, resolve_workflow_name def)
      else if resolve_workflow_name def == workflow
      then ok (def.spec.runtime_ref, workflow)
      else err (other_workflow ref (resolve_workflow_name def) workflow)

  module _ {E : Type 0} (fetch : String → String → Outcome E LogicFlowDefinition) where
    unfoldable pub definitions_loop :
        String → Bool → String → String → List String → Outcome ServiceError (Unit {0})
    definitions_loop namespace first runtime workflow [] = ok tt
    definitions_loop namespace first runtime workflow (ref ∷ refs) = elim (fetch namespace ref) [
      | err e ↦ err (definition_missing ref)
      | ok def ↦ elim (check_definition first runtime workflow ref def) [
        | err e ↦ err e
        | ok names ↦ definitions_loop namespace false names.0 names.1 refs
      ]
    ]

    -- validateDefinitions
    unfoldable pub validate_definitions : LogicFlowService → Outcome ServiceError (Unit {0})
    validate_definitions svc =
        definitions_loop svc.namespace true "" "" (resolve_definition_refs svc)

    -- validate
    unfoldable pub validate : Bool → LogicFlowService → Outcome ServiceError (Unit {0})
    validate open_shift svc =
        validate_traffic_config svc
        >> (validate_ingress open_shift svc
            >> (validate_tls svc.spec.ingress.tls >> validate_definitions svc))

    -- ValidateUpdate; ValidateCreate is `validate`.
    unfoldable pub validate_update :
        Bool → LogicFlowService → LogicFlowService → Outcome ServiceError (Unit {0})
    validate_update open_shift old new =
        validate_gateway_ref_immutable old new >> validate open_shift new
