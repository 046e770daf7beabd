-- ===== src/Examples/Routes.antt =====
-- The theorems on routes, leases and addresses, at work.
use logic_operator.Prelude.{String, ◌≡◌, refl, ◌≢◌, ◌↔◌, some, arith, text_Eq, ok}
use logic_operator.Prelude.Assoc.{get}
use logic_operator.Prelude.Assoc.Entries.{entries_of, entries_of-IsRange}
use logic_operator.Gateway.Routing.{
  WorkflowKey, Url, key_Eq, destination_pod, resolve_execution, resolve_instance, pod_url,
}
use logic_operator.Gateway.Routing.Execution.{key_of, SharesUrl, resolve_execution_order}
use logic_operator.Gateway.Routing.Instance.{resolve_instance-pod}
use logic_operator.Gateway.Lease.{Lease, pod_for}
use logic_operator.Gateway.Catalog.Urls.{ParsedUrl, validate_external_url}
use logic_operator.Gateway.Catalog.Urls.External.{IsExternal, validate_external_url-IsExternal}
use logic_operator.Examples.Data.{resolver, order_v2, get_lease, parse, shop_url}

answer : resolve_execution entries_of resolver "shop" "order" "2.0" ≡ ok "http://runner.shop"
unfolding resolve_execution get
answer = refl

listed : get order_v2 resolver.endpoints ≡ some "http://runner.shop"
unfolding get
listed = refl

all_equal :
    (k : WorkflowKey) (a : Url) → get k resolver.endpoints ≡ some a → a ≡ "http://runner.shop"
unfolding get
all_equal k a h = ground arith

shared : SharesUrl resolver.endpoints "shop" "order"
shared v w a b p q =
    rw (all_equal (key_of "shop" "order" v) a p, all_equal (key_of "shop" "order" w) b q) refl

resolve_execution_order_example :
    resolve_execution entries_of resolver "shop" "order" ""
    ≡ resolve_execution entries_of resolver "shop" "order" ""
resolve_execution_order_example =
    resolve_execution_order resolver "shop" "order" "" shared entries_of entries_of
      (entries_of-IsRange resolver.endpoints) (entries_of-IsRange resolver.endpoints)

resolve_instance-pod_example :
    (resolve_instance entries_of (pod_for get_lease) resolver "shop" "order" "i1"
      ≡ ok (record { url = pod_url "pod-7" 8080; kind = destination_pod }))
    ↔ ((lease_id : String) × (lease : Lease) × (pod : String) × (get "i1" resolver.instances
          ≡ some lease_id)
        × (get_lease "shop" lease_id ≡ ok lease)
        × (lease.holder_identity ≡ some pod)
        × (pod ≢ "")
        × (pod_url "pod-7" 8080 ≡ pod_url pod 8080))
resolve_instance-pod_example =
    resolve_instance-pod entries_of get_lease resolver "shop" "order" "i1" (pod_url "pod-7" 8080)

validate_external_url-IsExternal_example :
    (validate_external_url parse shop_url ≡ ok tt)
    ↔ ((parsed : ParsedUrl) × (parse shop_url ≡ ok parsed) × IsExternal parsed)
validate_external_url-IsExternal_example = validate_external_url-IsExternal parse shop_url
