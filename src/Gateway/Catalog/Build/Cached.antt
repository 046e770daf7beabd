-- ===== src/Gateway/Catalog/Build/Cached.antt =====
-- `StripDefinitionSpec` of workflow-gateway/internal/catalog/watcher.go: what the informer cache
-- keeps of a definition is all that the routing table needs.
use logic_operator.Prelude.{◌≡◌, refl, none, List, [], ◌∷◌, map, text_Eq}
use logic_operator.Api.Definition.{LogicFlowDefinition}
use logic_operator.Gateway.Catalog.Build.{
  Build, workflow_key_from_labels, step_definition, definitions_loop,
  build_runtime_service_endpoints,
}

-- StripDefinitionSpec
unfoldable pub strip_definition_spec : LogicFlowDefinition → LogicFlowDefinition
strip_definition_spec def = record def {
  spec = record { runtime_ref = def.spec.runtime_ref; flow = none };
}

definitions_loop-strip :
    (b : Build) (definitions : List LogicFlowDefinition)
    → definitions_loop b (map strip_definition_spec definitions) ≡ definitions_loop b definitions
unfolding definitions_loop step_definition strip_definition_spec workflow_key_from_labels
definitions_loop-strip b [] = refl
definitions_loop-strip b (def ∷ definitions) =
    definitions_loop-strip (step_definition b def) definitions

-- The table and the errors of `BuildRuntimeServiceEndpoints` are the same on definitions whose flow
-- documents were stripped as on the full ones.
pub build_runtime_service_endpoints-strip :
    (definitions : List LogicFlowDefinition)
    → build_runtime_service_endpoints (map strip_definition_spec definitions)
      ≡ build_runtime_service_endpoints definitions
unfolding build_runtime_service_endpoints
build_runtime_service_endpoints-strip definitions = definitions_loop-strip _ definitions
