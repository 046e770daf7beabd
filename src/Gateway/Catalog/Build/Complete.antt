-- ===== src/Gateway/Catalog/Build/Complete.antt =====
-- What the two tables and their errors account for: the first claim of a key wins, and each claim
-- is in the table or among the errors.
use logic_operator.Prelude.{
  false, eq_false, ◌≡◌, ◌≢◌, List, [], ◌∷◌, text_Eq, ◌==◌, ok, In, inl, inr, Outcome-cases,
  Bool-cases,
}
use logic_operator.Api.Definition.{LogicFlowDefinition}
use logic_operator.Gateway.Routing.{WorkflowKey, key_Eq}
use logic_operator.Gateway.Catalog.Build.{
  Build, workflow_key_from_labels, step_definition, definitions_loop,
  build_runtime_service_endpoints, runtime_service_url,
}
use logic_operator.Gateway.Catalog.Build.Extends.{
  Extends, Extends-refl, Extends-trans, note_Extends, claim-Extends, IsSettled, IsSettled-Extends,
  claim-IsSettled,
}

step_definition-Extends :
    (b : Build) (def : LogicFlowDefinition) → Extends b (step_definition b def)
unfolding step_definition
step_definition-Extends b def = elim (Outcome-cases (workflow_key_from_labels def)) [
  | inr (x, e) ↦ rw (e, step_definition) (note_Extends b x)
  | inl (key, e) ↦ elim (Bool-cases (def.spec.runtime_ref == "")) [
    | inl empty ↦ rw (e, step_definition) (rw empty (note_Extends b _))
    | inr named ↦ rw (e, step_definition) (rw named (claim-Extends b _ key _))
  ]
]

definitions_loop-Extends :
    (b : Build) (definitions : List LogicFlowDefinition)
    → Extends b (definitions_loop b definitions)
unfolding definitions_loop
definitions_loop-Extends b [] = Extends-refl b
definitions_loop-Extends b (def ∷ definitions) =
    Extends-trans (step_definition-Extends b def)
      (definitions_loop-Extends (step_definition b def) definitions)

definitions_loop-IsSettled :
    (b : Build) (definitions : List LogicFlowDefinition) (def : LogicFlowDefinition)
    (key : WorkflowKey)
    → In def definitions
    → workflow_key_from_labels def ≡ ok key
    → (def.spec.runtime_ref == "") ≡ false
    → IsSettled
        (definitions_loop b definitions)
        (def.namespace, def.name)
        key
        (runtime_service_url def.spec.runtime_ref def.namespace)
unfolding definitions_loop step_definition
definitions_loop-IsSettled b [] def key i l named = absurd i
definitions_loop-IsSettled b (d ∷ definitions) def key (inl p) l named =
    IsSettled-Extends _ key _
      (rw (← p) (rw (l, step_definition) (rw named (claim-IsSettled b _ key _))))
      (definitions_loop-Extends (step_definition b d) definitions)
definitions_loop-IsSettled b (d ∷ definitions) def key (inr i) l named =
    definitions_loop-IsSettled (step_definition b d) definitions def key i l named

pub build_runtime_service_endpoints-IsSettled :
    (definitions : List LogicFlowDefinition) (def : LogicFlowDefinition) (key : WorkflowKey)
    → In def definitions
    → workflow_key_from_labels def ≡ ok key
    → def.spec.runtime_ref ≢ ""
    → IsSettled
        (build_runtime_service_endpoints definitions)
        (def.namespace, def.name)
        key
        (runtime_service_url def.spec.runtime_ref def.namespace)
unfolding build_runtime_service_endpoints
build_runtime_service_endpoints-IsSettled definitions def key i l named =
    definitions_loop-IsSettled _ definitions def key i l (eq_false def.spec.runtime_ref "" named)
