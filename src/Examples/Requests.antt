-- ===== src/Examples/Requests.antt =====
-- The theorems on the HTTP handlers, at work.
use logic_operator.Prelude.{
  String, ◌≡◌, refl, ◌≢◌, ◌↔◌, ◌⊎◌, some, none, Option, [], ◌∷◌, text_Eq, ok, err, false,
}
use logic_operator.Prelude.Assoc.{get}
use logic_operator.Prelude.Assoc.Entries.{entries_of, entries_of-IsRange}
use logic_operator.Prelude.Text.{contains_code, codes}
use logic_operator.Gateway.Routing.{Url, key_Eq}
use logic_operator.Gateway.Routing.Execution.{key_of}
use logic_operator.Gateway.Platform.{new_platform_store}
use logic_operator.Gateway.DataIndex.{InstanceFilter}
use logic_operator.Gateway.Server.{
  RouteParams, ProxyRequest, Response, JsonObject, json_string, DataIndexClient,
  workflow_not_found_reply, execute_sync_handler,
}
use logic_operator.Gateway.Server.Execute.{execute_sync_handler-not_found}
use logic_operator.Examples.Data.{no_routes, parse}

abbrev request : RouteParams
request = record { namespace = "shop"; name = "order"; version = "1.0"; id = "" }

abbrev on_instance : RouteParams
on_instance = record { namespace = "shop"; name = "order"; version = "1.0"; id = "i9" }

-- A runner that accepts every execution
abbrev runner : ProxyRequest → Response
runner q = record { status = 202; body = "accepted" }

abbrev result : JsonObject
result = ("instanceId", json_string "i9") ∷ ("workflowApplicationId", json_string "pod-7") ∷ []

abbrev decode : String → Option JsonObject
decode body = some result

abbrev encode : Option JsonObject → String
encode _ = "accepted"

execute_sync_handler-not_found_example :
    (execute_sync_handler entries_of parse runner no_routes request ≡ workflow_not_found_reply) ↔ (
      (v : String) (u : Url)
      → (request.version ≡ "") ⊎ (request.version ≡ v)
      → get (key_of "shop" "order" v) no_routes.endpoints ≢ some u)
execute_sync_handler-not_found_example =
    execute_sync_handler-not_found entries_of parse runner no_routes request
      (entries_of-IsRange no_routes.endpoints)

no_slash : contains_code b'/' (codes "cancel") ≡ false
unfolding contains_code
no_slash = refl

abbrev filter : InstanceFilter
filter = record { namespace = "shop"; name = "order"; version = ""; status = "RUNNING" }

abbrev client : Option DataIndexClient
client = some (record {
  transport = λ address request. err "connection refused";
  decode_list = λ body. ok [];
  decode_one = λ body. ok none;
  store = new_platform_store;
})

abbrev value : String
value = "shop"
