-- ===== src/Examples/Data.antt =====
-- Two workflows of a runtime, a service with a URL, and the parts around them.
use logic_operator.Prelude.{
  String, true, none, some, List, [], ◌∷◌, Outcome, ok, err, text_Eq, ◌==◌, if◌then◌else◌,
}
use logic_operator.Api.Definition.{
  LogicFlowDefinition, label_workflow_name, label_workflow_namespace, label_workflow_version,
}
use logic_operator.Api.Service.{LogicFlowService}
use logic_operator.Gateway.Routing.{WorkflowKey, Resolver}
use logic_operator.Gateway.Routing.Execution.{key_of}
use logic_operator.Api.Client.{GetError, not_found}
use logic_operator.Gateway.Lease.{Lease}
use logic_operator.Gateway.Catalog.Urls.{ParsedUrl}

abbrev pub def_of : String → String → LogicFlowDefinition
def_of name version = record {
  name = name;
  namespace = "shop";
  uid = "u1";
  generation = 1;
  labels =
      (label_workflow_namespace, "shop")
      ∷ (label_workflow_name, "order")
      ∷ (label_workflow_version, version)
      ∷ [];
  spec = record { runtime_ref = "runner"; flow = some "document: {}" };
  status = record {
    observed_generation = 1;
    workflow_name = "order";
    workflow_version = version;
    workflow_namespace = "shop";
    config_map_ref = none;
    conditions = [];
  };
}

abbrev pub definitions : List LogicFlowDefinition
definitions = def_of "order-v1" "1.0" ∷ def_of "order-v2" "2.0" ∷ []

abbrev pub shop_url : String
shop_url = "https://shop.example.com"

abbrev pub service : LogicFlowService
service = record {
  name = "shop";
  namespace = "shop";
  uid = "u2";
  generation = 1;
  labels = [];
  spec = record {
    default_definition = some "order-v1";
    traffic = [];
    ingress = record {
      host = "shop.example.com";
      ingress_class_name = none;
      gateway_ref = none;
      annotations = [];
      tls = record { enabled = true; secret_ref = ""; cert_manager = none };
    };
  };
  status = record {
    observed_generation = 1;
    runtime_ref = some "runner";
    ingress_ref = none;
    route_ref = none;
    http_route_ref = none;
    url = shop_url;
    traffic = [];
    conditions = [];
  };
}

-- A parser that knows the addresses of the examples
abbrev pub parse : String → Outcome String ParsedUrl
parse raw =
    if raw == shop_url
    then ok (record { scheme = "https"; hostname = "shop.example.com" })
    else if raw == "http://runner.shop"
    then ok (record { scheme = "http"; hostname = "runner.shop" })
    else if raw == "http://pod-7:8080"
    then ok (record { scheme = "http"; hostname = "pod-7" })
    else err "unknown address"

abbrev pub order_v1 : WorkflowKey
order_v1 = key_of "shop" "order" "1.0"

abbrev pub order_v2 : WorkflowKey
order_v2 = key_of "shop" "order" "2.0"

-- The resolver of a gateway that routes both versions to one runtime, and knows one instance
abbrev pub resolver : Resolver
resolver = record {
  endpoints = (order_v1, "http://runner.shop") ∷ (order_v2, "http://runner.shop") ∷ [];
  instances = ("i1", "pod-7") ∷ [];
  runner_port = 8080;
}

abbrev pub no_routes : Resolver
no_routes = record { endpoints = []; instances = []; runner_port = 8080 }

abbrev pub get_lease : String → String → Outcome GetError Lease
get_lease namespace name =
    if name == "pod-7" then ok (record { holder_identity = some "pod-7" }) else err not_found

abbrev pub second : String
second = "2.0"

abbrev pub pod_7 : String
pod_7 = "pod-7"

abbrev pub i1 : String
i1 = "i1"

abbrev pub i2 : String
i2 = "i2"
