-- ===== src/Gateway/Catalog/Watcher.antt =====
-- workflow-gateway/internal/catalog/watcher.go: `doRecompute` rebuilds the routing table from the
-- informer cache. The timer that delays and joins recomputations is left out.
use logic_operator.Prelude.{String, Option, none, some, List, [], ◌∷◌, Outcome, ok, err, text_Eq}
use logic_operator.Prelude.Assoc.{Assoc, get, put, put_all}
use logic_operator.Prelude.Text.{sprintf}
use logic_operator.Api.Definition.{LogicFlowDefinition}
use logic_operator.Api.Service.{LogicFlowService}
use logic_operator.Gateway.Routing.{
  WorkflowKey, Url, Endpoints, key_Eq, Resolver, update_execution_endpoints,
}
use logic_operator.Gateway.Catalog.Urls.{ParsedUrl}
use logic_operator.Gateway.Catalog.Build.{
  DefinitionResolver, build_execution_endpoints, build_runtime_service_endpoints,
}

-- What the two `List` calls of the informer cache answer.
pub record InformerCache : Type 0 where
  pub list_definitions : Outcome String (List LogicFlowDefinition)
  pub list_services : Outcome String (List LogicFlowService)

by_name_key : String → String → String
by_name_key namespace name = sprintf (namespace ∷ "/" ∷ name ∷ [])

-- `definitionsByName`, filled by its loop
index_definitions :
    Assoc String LogicFlowDefinition → List LogicFlowDefinition → Assoc String LogicFlowDefinition
unfolding by_name_key
index_definitions m [] = m
index_definitions m (def ∷ definitions) =
    index_definitions (put (by_name_key def.namespace def.name) def m) definitions

-- The resolver that is passed to `BuildExecutionEndpoints`
unfoldable pub resolve_by_name : List LogicFlowDefinition → DefinitionResolver
unfolding index_definitions by_name_key
resolve_by_name definitions namespace name =
    elim (get (by_name_key namespace name) (index_definitions [] definitions)) [
      | some def ↦ ok def
      | none ↦
          err
            (sprintf ("definition " ∷ namespace ∷ "/" ∷ name ∷ " not found in gateway cache" ∷ []))
    ]

module _ (parse : String → Outcome String ParsedUrl)
    (range : Endpoints → List (WorkflowKey × Url)) where
  -- The table that the recomputation installs: the Services of the runtimes, and over them the URLs
  -- of the services.
  unfoldable pub endpoints_of : List LogicFlowDefinition → List LogicFlowService → Endpoints
  endpoints_of definitions services =
      put_all (build_runtime_service_endpoints definitions).endpoints
        (range (build_execution_endpoints parse (resolve_by_name definitions) services).endpoints)

  -- doRecompute; `none` is a watcher with no cache.
  unfoldable pub do_recompute : Option InformerCache → Resolver → Resolver
  unfolding endpoints_of
  do_recompute none r = r
  do_recompute (some cache) r = elim cache.list_definitions [
    | err e ↦ r
    | ok definitions ↦ elim cache.list_services [
      | err e ↦ r
      | ok services ↦ update_execution_endpoints r (range (endpoints_of definitions services))
    ]
  ]
