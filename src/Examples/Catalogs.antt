-- ===== src/Examples/Catalogs.antt =====
-- The theorems on the catalog and the platform watcher, at work.
use logic_operator.Prelude.{◌≡◌, refl, ◌≢◌, some, [], ◌∷◌, arith, text_Eq, inl, inr, ok}
use logic_operator.Prelude.Assoc.{get, put}
use logic_operator.Prelude.Assoc.PutAll.{or_else}
use logic_operator.Prelude.Assoc.Entries.{entries_of, entries_of-IsRange}
use logic_operator.Gateway.Routing.{Url, key_Eq, Resolver, resolve_execution}
use logic_operator.Prelude.Text.{ends_with, trim_dot, lower_code, contains_code, sprintf}
use logic_operator.Gateway.Catalog.Urls.{validate_external_url, host_lower}
use logic_operator.Gateway.Catalog.Build.{
  build_execution_endpoints, build_runtime_service_endpoints, runtime_service_url,
  workflow_key_from_labels, referenced_definitions, claim,
}
use logic_operator.Gateway.Catalog.Build.Sound.{FromService, build_execution_endpoints-FromService}
use logic_operator.Gateway.Catalog.Watcher.{do_recompute, resolve_by_name}
use logic_operator.Gateway.Catalog.Table.{get-do_recompute, resolve_execution-do_recompute}
use logic_operator.Examples.Data.{
  definitions, def_of, service, resolver, order_v1, order_v2, parse, shop_url,
}

claimed :
    get order_v1
      (build_execution_endpoints parse (resolve_by_name definitions) (service ∷ [])).endpoints
    ≡ some shop_url
unfolding build_execution_endpoints get resolve_by_name validate_external_url ends_with host_lower
    trim_dot lower_code contains_code referenced_definitions workflow_key_from_labels put sprintf
    claim
claimed = refl

build_execution_endpoints-FromService_example :
    FromService parse (resolve_by_name definitions) (service ∷ []) order_v1 shop_url
build_execution_endpoints-FromService_example =
    build_execution_endpoints-FromService parse (resolve_by_name definitions) (service ∷ [])
      order_v1 shop_url claimed

to_runtime :
    get order_v2 (build_runtime_service_endpoints definitions).endpoints
    ≡ some (runtime_service_url "runner" "shop")
unfolding build_runtime_service_endpoints runtime_service_url get workflow_key_from_labels put
    sprintf claim
to_runtime = refl

labelled_v2 : workflow_key_from_labels (def_of "order-v2" "2.0") ≡ ok order_v2
unfolding workflow_key_from_labels get
labelled_v2 = refl

has_runtime : (def_of "order-v2" "2.0").spec.runtime_ref ≢ ""
has_runtime p = ground (arith, p, text_Eq.same_iff "runner" "")

abbrev recomputed : Resolver
recomputed =
    do_recompute parse entries_of
      (some (record { list_definitions = ok definitions; list_services = ok (service ∷ []) }))
      resolver

get-do_recompute_example :
    (get order_v2 recomputed.endpoints
      ≡ or_else
          (get order_v2
            (build_execution_endpoints parse
              (resolve_by_name definitions)
              (service ∷ [])).endpoints)
          (get order_v2 (build_runtime_service_endpoints definitions).endpoints))
    × (recomputed.instances ≡ resolver.instances)
    × (recomputed.runner_port ≡ 8080)
get-do_recompute_example =
    get-do_recompute parse entries_of (λ m. entries_of-IsRange m) resolver definitions
      (service ∷ []) order_v2

resolve_execution-do_recompute_example :
    (u : Url) × (resolve_execution entries_of recomputed "shop" "order" "" ≡ ok u)
resolve_execution-do_recompute_example =
    resolve_execution-do_recompute parse entries_of (λ m. entries_of-IsRange m) resolver definitions
      (service ∷ []) (def_of "order-v2" "2.0") order_v2 "" (inr (inl refl)) labelled_v2 has_runtime
      (inl refl)
