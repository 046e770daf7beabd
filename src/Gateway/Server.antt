-- ===== src/Gateway/Server.antt =====
-- workflow-gateway/internal/server: the HTTP handlers. The router gives the URL parameters, the
-- reverse proxy and the runner behind it are the parameter `upstream`, and encoding/json and
-- net/url are parameters too. `mux` patterns, listening and shutdown are left out.
pub mod Execute
pub mod Instances
use logic_operator.Prelude.{
  ℕ, String, Bool, Option, none, some, List, [], ◌∷◌, ◌++◌, Outcome, ok, err, text_Eq, ◌==◌, nat_eq,
  ◌||◌, if◌then◌else◌,
}
use logic_operator.Prelude.Assoc.{Assoc, get}
use logic_operator.Prelude.Text.{sprintf, contains_code, codes, contains_text}
use logic_operator.Api.Definition.{LogicFlowDefinition}
use logic_operator.Gateway.Routing.{
  WorkflowKey, Url, Endpoints, Resolver, Destination, PodResolver, resolve_execution,
  resolve_instance, cache_instance,
}
use logic_operator.Gateway.Catalog.Urls.{ParsedUrl}
use logic_operator.Gateway.Platform.{PlatformStore}
use logic_operator.Gateway.DataIndex.{
  Transport, WorkflowInstance, InstanceFilter, endpoint_not_discovered, instance_not_found,
  upstream, list_instances, get_instance,
}
use logic_operator.Gateway.Definitions.{Readers, fetch_definition, definition_not_found, api_error}

-- What a handler writes: JSON made of these, or the bytes of the runner.
pub data Body : Type 0 where
  error_message plain : String → Body
  instance_list : List WorkflowInstance → Body
  instance : WorkflowInstance → Body
  flow_json flow_yaml : Option String → Body
  forwarded : String → Body

pub record HttpReply : Type 0 where
  pub status : ℕ
  pub body : Body

-- `workflowParams` and `instanceID` of params.go: the parameters of the route, "" where it has none
pub record RouteParams : Type 0 where
  pub namespace : String
  pub name : String
  pub version : String
  pub id : String

-- What the reverse proxy sends, by `Rewrite`: `query` replaces the query if it is given.
pub record ProxyRequest : Type 0 where
  pub target : Url
  pub path : String
  pub query : Option String

pub record Response : Type 0 where
  pub status : ℕ
  pub body : String

-- A member of a JSON object: a string, or anything else
pub data Json : Type 0 where
  json_string json_other : String → Json

abbrev pub JsonObject : Type 0
JsonObject = Assoc String Json

slash_parts : List String → List String
slash_parts [] = []
slash_parts (part ∷ parts) =
    let rest = slash_parts parts in if part == "" then rest else "/" ∷ (part ∷ rest)

-- constructRunnerPath
unfoldable pub construct_runner_path : String → String → String → List String → String
unfolding slash_parts
construct_runner_path namespace name version parts = sprintf (
    "/q/flow/exec/"
    ∷ (namespace
        ∷ ("/"
            ∷ (name
                ∷ ((if version == "" then [] else "/" ∷ (version ∷ [])) ++ slash_parts parts)))))

-- The last part of a path that is split at "/"
unfoldable pub last_segment : String → String
last_segment String.[] = String.[]
last_segment (String.◌∷◌ c s) =
    let rest = last_segment s in
    if contains_code b'/' (codes s)
    then rest
    else if nat_eq (Prim.Native.Char.code c) b'/'
    then s
    else String.◌∷◌ c s

abbrev pub workflow_not_found_reply : HttpReply
workflow_not_found_reply = record { status = 404; body = error_message "workflow not found" }

-- The effect of an accepted execution: the instance is cached with the pod that the runner names.
unfoldable pub cache_result : Resolver → Option JsonObject → Resolver
cache_result r none = r
cache_result r (some result) = elim (get "instanceId" result) [
  | some (json_string instance_id) ↦ elim (get "workflowApplicationId" result) [
    | some (json_string pod_name) ↦ cache_instance r instance_id pod_name
    | _ ↦ r
  ]
  | _ ↦ r
]

module _ (range : Endpoints → List (WorkflowKey × Url)) (parse : String → Outcome String ParsedUrl)
    (upstream_of : ProxyRequest → Response) where
  -- executeSyncHandler, with `resolveWorkflow` in it
  unfoldable pub execute_sync_handler : Resolver → RouteParams → HttpReply
  execute_sync_handler r p = elim (resolve_execution range r p.namespace p.name p.version) [
    | err e ↦ workflow_not_found_reply
    | ok exec_url ↦ elim (parse exec_url) [
      | err e ↦ record { status = 500; body = plain "invalid upstream URL" }
      | ok target ↦
          let response = upstream_of (record {
            target = exec_url;
            path = construct_runner_path p.namespace p.name p.version [];
            query = some "wait=true";
          }) in
          record { status = response.status; body = forwarded response.body }
    ]
  ]

  module _ (decode : String → Option JsonObject) (encode : Option JsonObject → String) where
    -- ModifyResponse of executeAsyncHandler
    accept_response : Resolver → Response → Resolver × HttpReply
    unfolding cache_result
    accept_response r response =
        if nat_eq response.status 202
        then (
          cache_result r (decode response.body),
          record { status = 202; body = forwarded (encode (decode response.body)) },
        )
        else (r, record { status = response.status; body = forwarded response.body })

    -- executeAsyncHandler; the state is the resolver with its instance cache.
    unfoldable pub execute_async_handler : Resolver → RouteParams → Resolver × HttpReply
    unfolding accept_response
    execute_async_handler r p = elim (resolve_execution range r p.namespace p.name p.version) [
      | err e ↦ (r, workflow_not_found_reply)
      | ok exec_url ↦ elim (parse exec_url) [
        | err e ↦ (r, record { status = 500; body = plain "invalid upstream URL" })
        | ok target ↦ accept_response r (
            upstream_of (record {
              target = exec_url;
              path = construct_runner_path p.namespace p.name p.version [];
              query = some "wait=false";
            }))
      ]
    ]

  -- proxyInstanceOperation; `url_path` is the path of the request.
  unfoldable pub proxy_instance_operation : RouteParams → String → Destination → HttpReply
  proxy_instance_operation p url_path dest = elim (parse dest.url) [
    | err e ↦ record { status = 500; body = plain "invalid destination URL" }
    | ok target ↦
        let response = upstream_of (record {
          target = dest.url;
          path =
              construct_runner_path p.namespace p.name p.version
                (p.id ∷ (last_segment url_path ∷ []));
          query = none;
        }) in
        record { status = response.status; body = forwarded response.body }
  ]

  -- suspendHandler, resumeHandler and cancelHandler, which differ by their routes only
  unfoldable pub instance_operation_handler :
      {E : Type 0} → PodResolver E → Resolver → RouteParams → String → HttpReply
  unfolding proxy_instance_operation
  instance_operation_handler pod_for r p url_path =
      elim (resolve_instance range pod_for r p.namespace p.name p.id) [
        | err e ↦ workflow_not_found_reply
        | ok dest ↦ proxy_instance_operation p url_path dest
      ]

abbrev pub data_index_missing : HttpReply
data_index_missing = record { status = 503; body = error_message "data index not available" }

abbrev pub upstream_error : HttpReply
upstream_error = record { status = 502; body = error_message "upstream error" }

-- The client of a server: nil, or its transport and its store
pub record DataIndexClient : Type 0 where
  pub transport : Transport
  pub decode_list : String → Outcome String (List WorkflowInstance)
  pub decode_one : String → Outcome String (Option WorkflowInstance)
  pub store : PlatformStore

-- listInstancesHandler
unfoldable pub list_instances_handler : Option DataIndexClient → InstanceFilter → HttpReply
list_instances_handler none filter = data_index_missing
list_instances_handler (some c) filter =
    elim (list_instances c.transport c.decode_list c.store filter) [
      | ok instances ↦ record { status = 200; body = instance_list instances }
      | err endpoint_not_discovered ↦ data_index_missing
      | err _ ↦ upstream_error
    ]

-- getInstanceHandler
unfoldable pub get_instance_handler : Option DataIndexClient → String → HttpReply
get_instance_handler none id = data_index_missing
get_instance_handler (some c) id = elim (get_instance c.transport c.decode_one c.store id) [
  | ok found ↦ record { status = 200; body = instance found }
  | err endpoint_not_discovered ↦ data_index_missing
  | err instance_not_found ↦ record { status = 404; body = error_message "instance not found" }
  | err (upstream message) ↦ upstream_error
]

-- getDefinitionHandler; `accept` is the Accept header.
unfoldable pub get_definition_handler : Option Readers → RouteParams → String → HttpReply
get_definition_handler readers p accept =
    elim (fetch_definition readers p.namespace p.name p.version) [
      | err definition_not_found ↦ record {
        status = 404;
        body = error_message "workflow definition not found";
      }
      | err (api_error message) ↦ record { status = 502; body = error_message message }
      | ok def ↦ record {
        status = 200;
        body =
            if contains_text "application/yaml" accept || contains_text "application/x-yaml" accept
            then flow_yaml def.spec.flow
            else flow_json def.spec.flow;
      }
    ]
