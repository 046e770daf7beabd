-- ===== src/Admission/Service/Versions.antt =====
-- What the loop over the definitions of a service accepts.
use logic_operator.Prelude.{
  String, ◌≡◌, refl, ◌⊎◌, Bool, true, false, List, [], ◌∷◌, Outcome, ok, text_Eq, number_Eq, inl,
  inr, All, arith, Outcome-cases,
}
use logic_operator.Api.Definition.{LogicFlowDefinition, Workflow}
use logic_operator.Admission.Service.{resolve_workflow_name, check_definition, definitions_loop}

-- A definition that a service may refer to: it is there, on the runtime, and of the workflow unless
-- its workflow is not known.
pub record IsVersion {E : Type 0} (from_json : String → Outcome String Workflow)
    (fetch : String → String → Outcome E LogicFlowDefinition)
    (namespace runtime workflow ref : String) : Type 0 where
  pub def : LogicFlowDefinition
  pub found : fetch namespace ref ≡ ok def
  pub deployed : def.spec.runtime_ref ≡ runtime
  pub same_workflow :
      (resolve_workflow_name from_json def ≡ "") ⊎ (resolve_workflow_name from_json def ≡ workflow)

module _ {E : Type 0} (from_json : String → Outcome String Workflow)
    (fetch : String → String → Outcome E LogicFlowDefinition) (namespace : String) where
  check_definition_ok :
      (first : Bool) (runtime workflow ref : String) (def : LogicFlowDefinition)
      (names : String × String)
      → check_definition from_json first runtime workflow ref def ≡ ok names
      → (names.0 ≡ def.spec.runtime_ref)
        × ((first ≡ true) ⊎ (def.spec.runtime_ref ≡ runtime))
        × ((resolve_workflow_name from_json def ≡ "")
            ⊎ (resolve_workflow_name from_json def ≡ names.1))
        × ((workflow ≡ "") ⊎ (workflow ≡ names.1))
  unfolding check_definition
  check_definition_ok first runtime workflow ref def names h = ground (
    arith,
    text_Eq.same_iff def.spec.runtime_ref runtime,
    text_Eq.same_iff workflow "",
    text_Eq.same_iff (resolve_workflow_name from_json def) "",
    text_Eq.same_iff (resolve_workflow_name from_json def) workflow,
  )

  pub definitions_loop_sound :
      (first : Bool) (runtime workflow : String) (refs : List String)
      → definitions_loop from_json fetch namespace first runtime workflow refs ≡ ok tt
      → (r : String) × (w : String) × ((first ≡ true) ⊎ (r ≡ runtime))
        × ((workflow ≡ "") ⊎ (workflow ≡ w))
        × All (IsVersion from_json fetch namespace r w) refs
  unfolding definitions_loop
  definitions_loop_sound first runtime workflow [] h = (runtime, workflow, inr refl, inr refl, tt)
  definitions_loop_sound first runtime workflow (ref ∷ refs) h =
      elim (Outcome-cases (fetch namespace ref)) [
        | inr (e, missing) ↦ absurd (ground (arith, missing, h))
        | inl (def, found) ↦
            elim (Outcome-cases (check_definition from_json first runtime workflow ref def)) [
              | inr (e, refused) ↦ absurd (ground (arith, found, refused, h))
              | inl (names, fine) ↦
                  let (same, first_or, named, before) =
                    check_definition_ok first runtime workflow ref def names fine in
                  let (r, w, on, of, all) =
                    definitions_loop_sound false names.0 names.1 refs
                      (ground (arith, found, fine, h)) in
                  (
                    r,
                    w,
                    ground (arith, on, same, first_or),
                    ground (arith, of, before),
                    (
                      record {
                        def = def;
                        found = found;
                        deployed = ground (arith, on, same);
                        same_workflow = ground (arith, of, named);
                      },
                      all,
                    ),
                  )
            ]
      ]

  check_definition_fits :
      (first : Bool) (runtime workflow r w ref : String) (def : LogicFlowDefinition)
      → (first ≡ true) ⊎ (r ≡ runtime)
      → (workflow ≡ "") ⊎ (workflow ≡ w)
      → def.spec.runtime_ref ≡ r
      → (resolve_workflow_name from_json def ≡ "") ⊎ (resolve_workflow_name from_json def ≡ w)
      → (names : String × String) × (check_definition from_json first runtime workflow ref def
          ≡ ok names)
        × (r ≡ names.0)
        × ((names.1 ≡ "") ⊎ (names.1 ≡ w))
  unfolding check_definition
  check_definition_fits first runtime workflow r w ref def on of deployed named =
      elim (Outcome-cases (check_definition from_json first runtime workflow ref def)) [
        | inr (e, refused) ↦ absurd (
            ground (
              arith,
              refused,
              on,
              of,
              deployed,
              named,
              text_Eq.same_iff def.spec.runtime_ref runtime,
              text_Eq.same_iff workflow "",
              text_Eq.same_iff (resolve_workflow_name from_json def) "",
              text_Eq.same_iff (resolve_workflow_name from_json def) workflow,
            ))
        | inl (names, fine) ↦ (
          names,
          fine,
          ground
              (arith, deployed, (check_definition_ok first runtime workflow ref def names fine).0),
          ground (
            arith,
            fine,
            of,
            named,
            text_Eq.same_iff workflow "",
            text_Eq.same_iff (resolve_workflow_name from_json def) "",
            text_Eq.same_iff (resolve_workflow_name from_json def) workflow,
          ),
        )
      ]

  pub definitions_loop_complete :
      (first : Bool) (runtime workflow r w : String) (refs : List String)
      → (first ≡ true) ⊎ (r ≡ runtime)
      → (workflow ≡ "") ⊎ (workflow ≡ w)
      → All (IsVersion from_json fetch namespace r w) refs
      → definitions_loop from_json fetch namespace first runtime workflow refs ≡ ok tt
  unfolding definitions_loop
  definitions_loop_complete first runtime workflow r w [] on of all = refl
  definitions_loop_complete first runtime workflow r w (ref ∷ refs) on of (v, all) =
      let (names, fine, same, known) =
        check_definition_fits first runtime workflow r w ref v.def on of v.deployed
          v.same_workflow in
      ground (
        arith,
        v.found,
        fine,
        definitions_loop_complete false names.0 names.1 r w refs (inr same) known all,
      )
