-- ===== src/Gateway/Catalog/Table.antt =====
-- The routing table after a recomputation.
use logic_operator.Prelude.{
  String, ◌≡◌, refl, ◌≢◌, ◌⊎◌, Option, none, some, List, arith, text_Eq, Outcome, ok, err, In, ◌∙◌,
}
use logic_operator.Prelude.Assoc.{get, IsRange}
use logic_operator.Prelude.Assoc.PutAll.{or_else, get-put_all}
use logic_operator.Api.Definition.{LogicFlowDefinition}
use logic_operator.Api.Service.{LogicFlowService}
use logic_operator.Gateway.Routing.{
  WorkflowKey, Url, Endpoints, key_Eq, Resolver, update_execution_endpoints, resolve_execution,
}
use logic_operator.Gateway.Routing.Execution.{get-replace, resolve_execution_complete}
use logic_operator.Gateway.Catalog.Urls.{ParsedUrl}
use logic_operator.Gateway.Catalog.Build.{
  workflow_key_from_labels, build_execution_endpoints, build_runtime_service_endpoints,
}
use logic_operator.Gateway.Catalog.Build.Complete.{build_runtime_service_endpoints-IsSettled}
use logic_operator.Gateway.Catalog.Watcher.{InformerCache, do_recompute, resolve_by_name}

or_else-some :
    {A : Type 0} (o : Option A) {rest : Option A} {a : A}
    → rest ≡ some a
    → (b : A) × (or_else o rest ≡ some b)
or_else-some (some b) h = (b, refl)
or_else-some none {a = a} h = (a, h)

module _ (parse : String → Outcome String ParsedUrl) (range : Endpoints → List (WorkflowKey × Url))
    (ranges : (m : Endpoints) → IsRange m (range m)) (r : Resolver) where
  -- When both lists succeed, the table after `doRecompute` answers each key with the URL of the
  -- services if they claim it, else with the Service of the runtime, whatever the order of the
  -- loops over maps; the instance cache and the port stay.
  pub get-do_recompute :
      (definitions : List LogicFlowDefinition) (services : List LogicFlowService) (k : WorkflowKey)
      → let r' =
          do_recompute parse range
            (some (record { list_definitions = ok definitions; list_services = ok services }))
            r in
        (get k r'.endpoints
          ≡ or_else
              (get k
                (build_execution_endpoints parse (resolve_by_name definitions) services).endpoints)
              (get k (build_runtime_service_endpoints definitions).endpoints))
        × (r'.instances ≡ r.instances)
        × (r'.runner_port ≡ r.runner_port)
  unfolding do_recompute update_execution_endpoints
  get-do_recompute definitions services k =
      (get-replace _ _ k (ranges _) ∙ get-put_all _ _ _ k (ranges _), refl, refl)

  -- A recomputation that cannot list the definitions or the services leaves the resolver as it is.
  pub do_recompute_failed :
      (cache : InformerCache) (message : String)
      → (cache.list_definitions ≡ err message) ⊎ (cache.list_services ≡ err message)
      → do_recompute parse range (some cache) r ≡ r
  unfolding do_recompute
  do_recompute_failed cache message failed = ground (arith, failed)

  -- After `doRecompute` every listed definition whose labels name a workflow and that names a
  -- runtime can be executed: `ResolveExecution` answers a URL for its version, and for no version.
  pub resolve_execution-do_recompute :
      (definitions : List LogicFlowDefinition) (services : List LogicFlowService)
      (def : LogicFlowDefinition) (key : WorkflowKey) (version : String)
      → In def definitions
      → workflow_key_from_labels def ≡ ok key
      → def.spec.runtime_ref ≢ ""
      → (version ≡ "") ⊎ (version ≡ key.version)
      → let r' =
          do_recompute parse range
            (some (record { list_definitions = ok definitions; list_services = ok services }))
            r in
        (u : Url) × (resolve_execution range r' key.namespace key.name version ≡ ok u)
  resolve_execution-do_recompute definitions services def key version i l named fits =
      let claimed = build_runtime_service_endpoints-IsSettled definitions def key i l named in
      let (u, found) =
        or_else-some
          (get key
            (build_execution_endpoints parse (resolve_by_name definitions) services).endpoints)
          claimed.set in
      resolve_execution_complete range _ key.namespace key.name version key.version u (ranges _)
        ((get-do_recompute definitions services key).0 ∙ found) fits
