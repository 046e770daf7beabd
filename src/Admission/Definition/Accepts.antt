-- ===== src/Admission/Definition/Accepts.antt =====
-- The LogicFlowDefinitions that are accepted.
use logic_operator.Prelude.{
  String, ◌≡◌, ◌≢◌, ◌↔◌, ◌⊎◌, List, [], ◌∷◌, Outcome, ok, text_Eq, inl, inr, All, arith,
  Outcome-cases,
}
use logic_operator.Api.Definition.{LogicFlowDefinition, Workflow, parse_flow}
use logic_operator.Admission.Definition.{
  DefinitionList, versions_of, same_runtime_loop, validate_same_runtime, validate_create,
  validate_update,
}

-- Another version of the workflow of `obj` is on its runtime.
abbrev pub Shares : LogicFlowDefinition → LogicFlowDefinition → Type 0
Shares obj d = (d.name ≡ obj.name) ⊎ (d.spec.runtime_ref ≡ obj.spec.runtime_ref)

same_runtime_iff :
    (obj : LogicFlowDefinition) (name : String) (existing : List LogicFlowDefinition)
    → (same_runtime_loop obj name existing ≡ ok tt) ↔ All (Shares obj) existing
unfolding same_runtime_loop
same_runtime_iff obj name [] = ground arith
same_runtime_iff obj name (d ∷ existing) = ground (
  arith,
  same_runtime_iff obj name existing,
  text_Eq.same_iff d.name obj.name,
  text_Eq.same_iff d.spec.runtime_ref obj.spec.runtime_ref,
)

module _ (from_json : String → Outcome String Workflow) where
  -- A definition may be created exactly when it names a runtime, its flow parses, the definitions
  -- with the labels of its workflow can be listed, and each of these, unless it has the same name,
  -- is on the same runtime.
  pub validate_create_iff :
      (list : DefinitionList) (obj : LogicFlowDefinition)
      → (validate_create from_json list obj ≡ ok tt) ↔ (
          (obj.spec.runtime_ref ≢ "")
          × (wf : Workflow) × (existing : List LogicFlowDefinition) × (parse_flow from_json obj.spec
              ≡ ok wf)
          × (list obj.namespace (versions_of wf.document_name obj.namespace) ≡ ok existing)
          × All (Shares obj) existing)
  unfolding validate_create validate_same_runtime
  validate_create_iff list obj = (
    λ h. elim (Outcome-cases (parse_flow from_json obj.spec)) [
      | inr (e, refused) ↦ absurd (ground (arith, refused, h))
      | inl (wf, parsed) ↦
          elim (Outcome-cases (list obj.namespace (versions_of wf.document_name obj.namespace))) [
            | inr (e, failed) ↦ absurd (ground (arith, parsed, failed, h))
            | inl (existing, listed) ↦ (
              λ p. ground (arith, p, h, text_Eq.same_iff obj.spec.runtime_ref ""),
              wf,
              existing,
              parsed,
              listed,
              (same_runtime_iff obj wf.document_name existing).0
                  (ground (arith, parsed, listed, h)),
            )
          ]
    ],
    λ w.
        let (named, wf, existing, parsed, listed, share) = w in
        ground (
          arith,
          named,
          parsed,
          listed,
          (same_runtime_iff obj wf.document_name existing).1 share,
          text_Eq.same_iff obj.spec.runtime_ref "",
        ),
  )

  -- A definition may be updated exactly when the runtime stays, both flows parse, and the name in
  -- their documents is the same.
  pub validate_update_iff :
      (old new : LogicFlowDefinition)
      → (validate_update from_json old new ≡ ok tt) ↔ (
          (old.spec.runtime_ref ≡ new.spec.runtime_ref)
          × (before : Workflow) × (after : Workflow) × (parse_flow from_json old.spec ≡ ok before)
          × (parse_flow from_json new.spec ≡ ok after)
          × (before.document_name ≡ after.document_name))
  unfolding validate_update
  validate_update_iff old new = (
    λ h. elim (Outcome-cases (parse_flow from_json new.spec)) [
      | inr (e, refused) ↦ absurd (ground (arith, refused, h))
      | inl (after, new_parsed) ↦ elim (Outcome-cases (parse_flow from_json old.spec)) [
        | inr (e, refused) ↦ absurd (ground (arith, new_parsed, refused, h))
        | inl (before, old_parsed) ↦ (
          ground (arith, h, text_Eq.same_iff old.spec.runtime_ref new.spec.runtime_ref),
          before,
          after,
          old_parsed,
          new_parsed,
          ground (
            arith,
            h,
            new_parsed,
            old_parsed,
            text_Eq.same_iff before.document_name after.document_name,
          ),
        )
      ]
    ],
    λ w.
        let (stays, before, after, old_parsed, new_parsed, same_name) = w in
        ground (
          arith,
          stays,
          new_parsed,
          old_parsed,
          same_name,
          text_Eq.same_iff old.spec.runtime_ref new.spec.runtime_ref,
          text_Eq.same_iff before.document_name after.document_name,
        ),
  )
