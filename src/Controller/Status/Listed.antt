-- ===== src/Controller/Status/Listed.antt =====
-- From a definition to the runtime that loads it: the ConfigMap that the reconciler of definitions
-- applies is what the reconciler of runtimes reads.
use mathlib.Core.Path.{subst}
use logic_operator.Prelude.{
  sym, ◌∙◌, String, ◌≡◌, refl, ◌≢◌, inl, inr, List, [], ◌∷◌, In, arith, text_Eq, ◌==◌, Bool-cases,
  eq_false,
}
use logic_operator.Api.Definition.{
  LogicFlowDefinition, Workflow, label_runtime_ref, label_workflow_name, label_workflow_version,
}
use logic_operator.Api.Runtime.{RuntimeDefinitionStatus}
use logic_operator.Controller.Definition.{ConfigMap, config_map_of}
use logic_operator.Controller.Definition.Labels.{get-put_workflow_labels}
use logic_operator.Controller.Status.{
  definitions_from_config_maps, map_config_map_to_runtime, label_of,
}

-- A ConfigMap with a workflow's name is reported, with its name and version.
pub definitions-In :
    (cms : List ConfigMap) (cm : ConfigMap)
    → In cm cms
    → label_of cm label_workflow_name ≢ ""
    → In
        (record {
          name = label_of cm label_workflow_name;
          version = label_of cm label_workflow_version;
        })
        (definitions_from_config_maps cms)
unfolding definitions_from_config_maps
definitions-In [] cm i h = absurd i
definitions-In (x ∷ cms) cm (inl p) h =
    subst
      (λ (c : ConfigMap).
        label_of c label_workflow_name ≢ ""
        → In
            (record {
              name = label_of c label_workflow_name;
              version = label_of c label_workflow_version;
            })
            (definitions_from_config_maps (x ∷ cms)))
      (sym p) (λ k. rw (eq_false (label_of x label_workflow_name) "" k) (inl refl)) h
definitions-In (x ∷ cms) cm (inr i) h = elim (Bool-cases (label_of x label_workflow_name == "")) [
  | inl e ↦ rw e (definitions-In cms cm i h)
  | inr e ↦ rw e (inr (definitions-In cms cm i h))
]

labels-config_map_of :
    (def : LogicFlowDefinition) (wf : Workflow) (document : String)
    → (label_of (config_map_of def wf document) label_workflow_name ≡ wf.document_name)
      × (label_of (config_map_of def wf document) label_workflow_version ≡ wf.document_version)
      × (label_of (config_map_of def wf document) label_runtime_ref ≡ def.spec.runtime_ref)
unfolding config_map_of
labels-config_map_of def wf document = (
  rw (label_of, config_map_of, get-put_workflow_labels _ def wf label_workflow_name) refl,
  rw (label_of, config_map_of, get-put_workflow_labels _ def wf label_workflow_version) refl,
  rw (label_of, config_map_of, get-put_workflow_labels _ def wf label_runtime_ref) refl,
)

-- The ConfigMap that the reconciler of definitions makes of a named workflow asks for a
-- reconciliation of the runtime that the definition refers to, in its namespace, if the reference is
-- not empty; and that runtime reports the name and the version of the workflow if it is among the
-- ConfigMaps of the runtime.
pub definitions-config_map_of :
    (def : LogicFlowDefinition) (wf : Workflow) (document : String) (cms : List ConfigMap)
    → wf.document_name ≢ ""
    → def.spec.runtime_ref ≢ ""
    → In (config_map_of def wf document) cms
    → (map_config_map_to_runtime (config_map_of def wf document)
        ≡ (def.spec.runtime_ref, def.namespace) ∷ [])
      × In
          (record { name = wf.document_name; version = wf.document_version })
          (definitions_from_config_maps cms)
unfolding map_config_map_to_runtime config_map_of
definitions-config_map_of def wf document cms named referred i =
    let (name, version, runtime) = labels-config_map_of def wf document in
    (
      ground (arith, runtime, eq_false def.spec.runtime_ref "" referred),
      subst (λ (s : RuntimeDefinitionStatus). In s (definitions_from_config_maps cms))
          (ground (arith, name, version))
          (definitions-In cms (config_map_of def wf document) i (λ p. named (sym name ∙ p))),
    )
