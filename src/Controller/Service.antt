-- ===== src/Controller/Service.antt =====
-- LogicFlowServiceReconciler of internal/controller/logicflowservice_controller.go. The state of the
-- cluster is `W`; what the API server does to it is the parameter `server`. `openshift` and
-- `gateway_api` are IsOpenShift and IsGatewayAPIAvailable. An index that is out of range is `panic`.
use logic_operator.Prelude.{
  String, Bool, not, ◌&&◌, Option, none, some, List, [], ◌∷◌, map, Outcome, ok, err, ◌>>=◌, text_Eq,
  ◌==◌, if◌then◌else◌, ltb,
}
use logic_operator.Prelude.Text.{sprintf}
use logic_operator.Api.Client.{GetError, not_found, other_error}
use logic_operator.Api.Definition.{LogicFlowDefinition, label_workflow_name}
use logic_operator.Api.Runtime.{LogicFlowRuntime}
use logic_operator.Api.Service.{LogicFlowService, TrafficSpec, TrafficStatus}
use logic_operator.Gateway.Catalog.Build.{label}
use logic_operator.Controller.Pool.{Step}
use logic_operator.Controller.Address.{RouteHosts, IngressHosts, resolve_ingress_url, scheme_of}
use logic_operator.Controller.Ingress.{Ingress, Route, HttpRoute}

pub data Fault : Type 0 where
  panic : Fault
  unread : GetError → Fault
  message : String → Fault

pub record ServiceServer (W : Type 0) : Type 0 where
  pub get_service : W → String → String → Outcome GetError LogicFlowService
  pub get_definition : W → String → String → Outcome GetError LogicFlowDefinition
  pub get_runtime : W → String → String → Outcome GetError LogicFlowRuntime
  pub get_route : W → String → String → Outcome GetError RouteHosts
  pub get_ingress : W → String → String → Outcome GetError IngressHosts
  -- the hostnames of an HTTPRoute
  pub get_http_route : W → String → String → Outcome GetError (List String)
  pub apply_ingress : W → Ingress → Step W
  pub apply_http_route : W → HttpRoute → Step W
  pub patch_route : W → Route → Step W
  pub delete_ingress : W → String → String → Outcome (GetError × W) W
  pub write_status : W → LogicFlowService → Step W

-- The state with the service, or a fault with the state
abbrev pub Progress : Type 0 → Type 0
Progress W = Outcome (Fault × W) (W × LogicFlowService)

-- The result of `Reconcile`: done, asked again after 5 seconds, or a fault
pub data Result (W : Type 0) : Type 0 where
  done requeued : W → Result W
  failed : Fault → W → Result W

-- The test of the default definition that most of the controller makes
abbrev pub default_name : LogicFlowService → Option String
default_name svc = elim svc.spec.default_definition [
  | none ↦ none
  | some name ↦ if name == "" then none else some name
]

abbrev pub differs : String → String → Bool
differs first second = not (first == "") && not (first == second)

-- The loop of resolveDefinitions, with the workflow and the runtime of the entry before
unfoldable pub definitions_loop :
    (String → Outcome GetError LogicFlowDefinition)
    → String
    → String
    → List TrafficSpec
    → Outcome Fault (List LogicFlowDefinition)
unfolding sprintf
definitions_loop get_def workflow runtime [] = ok []
definitions_loop get_def workflow runtime (t ∷ traffic) = elim (get_def t.definition_ref) [
  | err e ↦ err (unread e)
  | ok def ↦
      let rest =
        definitions_loop get_def (label def label_workflow_name) def.spec.runtime_ref traffic in
      if differs workflow (label def label_workflow_name)
      then err (
          message (
            sprintf (
              "definition "
              ∷ label def label_workflow_name
              ∷ " workflow name differs from "
              ∷ workflow
              ∷ ". Traffic split must be amongst same workflows"
              ∷ [])))
      else if differs runtime def.spec.runtime_ref
      then err (
          message (
            sprintf (
              "definition {" ∷ def.spec.runtime_ref ∷ "} runtime reference differs from " ∷ runtime
              ∷ ". Traffic split must target the same runtime" ∷ [])))
      else elim rest [ err e ↦ err e | ok defs ↦ ok (def ∷ defs) ]
]

-- resolveDefinitions
unfoldable pub resolve_definitions :
    (String → Outcome GetError LogicFlowDefinition)
    → LogicFlowService
    → Outcome Fault (List LogicFlowDefinition)
unfolding definitions_loop
resolve_definitions get_def svc = elim (default_name svc) [
  | some name ↦ elim (get_def name) [ err e ↦ err (unread e) | ok def ↦ ok (def ∷ []) ]
  | none ↦ definitions_loop get_def "" "" svc.spec.traffic
]

abbrev pub without_refs : LogicFlowService → LogicFlowService
without_refs svc = record svc {
  status = record svc.status { ingress_ref = none; route_ref = none; http_route_ref = none };
}

abbrev pub with_ingress_ref : LogicFlowService → String → LogicFlowService
with_ingress_ref svc name = record svc { status = record svc.status { ingress_ref = some name } }

abbrev pub with_route_ref : LogicFlowService → String → LogicFlowService
with_route_ref svc name = record svc { status = record svc.status { route_ref = some name } }

abbrev pub with_http_route_ref : LogicFlowService → String → LogicFlowService
with_http_route_ref svc name = record svc {
  status = record svc.status { http_route_ref = some name };
}

-- A step on the cluster that ends with this service
abbrev pub then_keep : {W : Type 0} → Step W → LogicFlowService → Progress W
then_keep (ok w) svc = ok (w, svc)
then_keep (err (text, w)) svc = err (message text, w)

-- `fmt.Errorf("…: %w", err)`
abbrev pub wrap : {W : Type 0} → String → Step W → Step W
wrap text (ok w) = ok w
wrap text (err (s, w)) = err (sprintf (text ∷ ": " ∷ s ∷ []), w)

-- A deletion: that the object is gone already is no failure.
abbrev pub tolerate_gone : {W : Type 0} → Outcome (GetError × W) W → Step W
tolerate_gone (ok w) = ok w
tolerate_gone (err (not_found, w)) = ok w
tolerate_gone (err (other_error text, w)) = err (text, w)

-- The entries of the status for the traffic in updateStatus
unfoldable pub traffic_status : LogicFlowService → Bool → List TrafficStatus
traffic_status svc ready = elim (default_name svc) [
  | some name ↦ record { definition_ref = name; weight = 100; ready = ready } ∷ []
  | none ↦
      map
        (λ (t : TrafficSpec). record {
          definition_ref = t.definition_ref;
          weight = t.weight;
          ready = ready;
        })
        svc.spec.traffic
]

abbrev pub hostname_url : Bool → List String → String
hostname_url tls [] = ""
hostname_url tls (host ∷ hosts) = sprintf (scheme_of tls ∷ "://" ∷ host ∷ "/" ∷ [])

-- The resolution of a Gateway API URL, by what the server answers
abbrev pub http_route_url : Bool → Outcome GetError (List String) → Outcome String String
http_route_url tls (err not_found) = ok ""
http_route_url tls (err (other_error text)) = err text
http_route_url tls (ok hosts) = ok (hostname_url tls hosts)

module _ {W : Type 0} (server : ServiceServer W) (openshift : Bool) where
  -- resolveURL
  unfoldable pub resolve_url : W → LogicFlowService → Outcome String String
  unfolding resolve_ingress_url sprintf
  resolve_url w svc = elim svc.spec.ingress.gateway_ref [
    | some _ ↦
        http_route_url svc.spec.ingress.tls.enabled (server.get_http_route w svc.namespace svc.name)
    | none ↦
        resolve_ingress_url openshift svc.spec.ingress.tls.enabled
          (server.get_route w svc.namespace svc.name) (server.get_ingress w svc.namespace svc.name)
        >>= λ url. if url == "" then ok "" else ok (sprintf (url ∷ "/" ∷ []))
  ]

  -- updateStatus
  unfoldable pub update_status : LogicFlowService → LogicFlowRuntime → W → Step W
  unfolding traffic_status resolve_url
  update_status svc rt w = elim (resolve_url w svc) [
    | err text ↦ err (text, w)
    | ok url ↦ server.write_status w (record svc {
      status = record svc.status {
        observed_generation = svc.generation;
        runtime_ref = some rt.name;
        traffic = traffic_status svc (ltb 0 rt.status.ready_replicas);
        url = url;
      };
    })
  ]

  -- deleteStaleCanaryIngresses
  unfoldable pub delete_stale_canary_ingresses : LogicFlowService → W → Step W
  unfolding sprintf
  delete_stale_canary_ingresses svc w =
      tolerate_gone (server.delete_ingress w svc.namespace (sprintf (svc.name ∷ "-canary" ∷ [])))
      >>= λ after.
          tolerate_gone
            (server.delete_ingress after svc.namespace (sprintf (svc.name ∷ "-direct" ∷ [])))
