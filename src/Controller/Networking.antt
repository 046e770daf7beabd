-- ===== src/Controller/Networking.antt =====
-- applyNetworking of internal/controller/logicflowservice_controller.go, what it calls, and
-- `Reconcile`. A loop over the annotations of the resource sees them in the order `range`.
pub mod Resolved
pub mod Safe
pub mod Refs
use logic_operator.Prelude.{
  String, Bool, true, false, not, ◌&&◌, ◌||◌, none, some, List, [], ◌∷◌, length, ok, err, ◌>>=◌,
  text_Eq, ◌==◌, if◌then◌else◌, ltb,
}
use logic_operator.Prelude.Assoc.{Assoc}
use logic_operator.Api.Client.{not_found, other_error}
use logic_operator.Api.Conditions.{
  ConditionsApi, condition_false, set_condition, set_condition_true,
}
use logic_operator.Api.Definition.{
  LogicFlowDefinition, label_workflow_name, label_workflow_version, label_workflow_namespace,
}
use logic_operator.Api.Runtime.{LogicFlowRuntime}
use logic_operator.Api.Service.{LogicFlowService, GatewayRef}
use logic_operator.Gateway.Catalog.Build.{label}
use logic_operator.Controller.Pool.{Step}
use logic_operator.Controller.Ingress.{
  ingress_for_service, canary_ingress_for_service, direct_version_ingress, route_for_default,
  http_route_for_service,
}
use logic_operator.Controller.Traffic.{TrafficTarget, split_traffic_targets, build_traffic_targets}
use logic_operator.Controller.Service.{
  panic, unread, message, ServiceServer, Progress, Result, done, requeued, failed,
  resolve_definitions, without_refs, with_ingress_ref, with_route_ref, with_http_route_ref,
  then_keep, wrap, update_status, delete_stale_canary_ingresses,
}

-- The workflow that a service exposes, by the labels of its first definition
pub record Exposed : Type 0 where
  pub service : LogicFlowService
  pub runtime : LogicFlowRuntime
  pub definitions : List LogicFlowDefinition
  pub namespace : String
  pub name : String

module _ (api : ConditionsApi) (range : Assoc String String → List (String × String)) {W : Type 0}
    (server : ServiceServer W) (openshift gateway_api : Bool) where
  -- The condition IngressReady set to False
  abbrev pub not_ready : LogicFlowService → String → String → LogicFlowService
  not_ready svc reason text = record svc {
    status = record svc.status {
      conditions =
          set_condition api svc.status.conditions "IngressReady" condition_false svc.generation
            reason text;
    };
  }

  -- applyDefaultIngress
  unfoldable pub apply_default_ingress : Exposed → LogicFlowService → String → W → Progress W
  unfolding ingress_for_service
  apply_default_ingress x svc version w =
      let ingress = ingress_for_service range svc x.runtime.name x.namespace x.name version true in
      then_keep (server.apply_ingress w ingress) (with_ingress_ref svc ingress.name)

  -- applyRoute
  unfoldable pub apply_route : Exposed → LogicFlowService → W → Progress W
  unfolding route_for_default
  apply_route x svc w =
      let route = route_for_default range svc x.runtime.name in
      then_keep (server.patch_route w route) (with_route_ref svc route.name)

  -- The three Ingresses of applyCanaryIngresses for these targets
  unfoldable pub apply_split :
      Exposed → LogicFlowService → TrafficTarget → TrafficTarget → W → Step W
  unfolding ingress_for_service canary_ingress_for_service direct_version_ingress
  apply_split x svc primary canary w =
      wrap "applying primary ingress" (
        server.apply_ingress w
          (ingress_for_service range svc x.runtime.name x.namespace x.name primary.version false))
      >>= (λ first. wrap "applying canary ingress" (
          server.apply_ingress first (
            canary_ingress_for_service range svc x.runtime.name x.namespace x.name canary.version
              canary.weight)))
      >>= λ second. wrap "applying direct version ingress" (
          server.apply_ingress second
            (direct_version_ingress range svc x.runtime.name x.namespace x.name))

  -- applyCanaryIngresses
  unfoldable pub apply_canary_ingresses : Exposed → LogicFlowService → W → Progress W
  unfolding apply_split split_traffic_targets
  apply_canary_ingresses x svc w = elim (split_traffic_targets svc x.definitions) [
    | none ↦ err (panic, w)
    | some (primary, canary) ↦
        then_keep (apply_split x svc primary canary w) (with_ingress_ref svc svc.name)
  ]

  -- applyHTTPRoute
  unfoldable pub apply_http_route : Exposed → LogicFlowService → GatewayRef → W → Progress W
  unfolding build_traffic_targets http_route_for_service
  apply_http_route x svc gateway w =
      if gateway_api
      then elim (build_traffic_targets svc x.definitions) [
        | none ↦ err (panic, w)
        | some targets ↦
            let route =
              http_route_for_service svc gateway x.runtime.name x.namespace x.name targets in
            then_keep (server.apply_http_route w route) (with_http_route_ref svc route.name)
      ]
      else ok (
        w,
        not_ready svc "GatewayAPINotAvailable" "Gateway API CRDs are not installed in the cluster",
      )

  -- The branch of applyNetworking for a default definition
  unfoldable pub apply_default : Exposed → LogicFlowService → W → Progress W
  unfolding apply_route apply_default_ingress delete_stale_canary_ingresses
  apply_default x svc w = elim (delete_stale_canary_ingresses server openshift svc w) [
    | err (text, after) ↦ err (message text, after)
    | ok after ↦ elim x.definitions [
      | [] ↦ err (panic, after)
      | def ∷ _ ↦
          if openshift
          then apply_route x svc after
          else apply_default_ingress x svc (label def label_workflow_version) after
    ]
  ]

  -- The branch of applyNetworking for traffic without a gateway
  unfoldable pub apply_traffic : Exposed → LogicFlowService → W → Progress W
  unfolding apply_canary_ingresses
  apply_traffic x svc w =
      if openshift
      then ok (
        w,
        not_ready svc "GatewayRefRequired"
            "Traffic splitting on OpenShift requires gatewayRef to be set",
      )
      else if ltb 2 (length svc.spec.traffic)
      then ok (
        w,
        not_ready svc "GatewayRefRequired"
            "Nginx canary supports at most 2 traffic entries; use gatewayRef for 3+ versions",
      )
      else apply_canary_ingresses x svc w

  -- applyNetworking
  unfoldable pub apply_networking : Exposed → W → Progress W
  unfolding apply_http_route apply_default apply_traffic
  apply_networking x w =
      let svc = without_refs x.service in
      elim svc.spec.ingress.gateway_ref [
        | none ↦
            if not openshift && svc.spec.ingress.host == ""
            then ok (
              w,
              not_ready svc "IngressMisconfigured"
                  "spec.ingress.host is required for nginx Ingress mode",
            )
            else elim svc.spec.default_definition [
              | some _ ↦ apply_default x svc w
              | none ↦ apply_traffic x svc w
            ]
        | some gateway ↦ apply_http_route x svc gateway w
      ]

  abbrev pub finish : {W : Type 0} → Step W → Result W
  finish (ok w) = done w
  finish (err (text, w)) = failed (message text) w

  -- SetConditionTrue of `Reconcile`
  abbrev pub with_ready : Exposed → Exposed
  with_ready x = record x {
    service = record x.service {
      status = record x.service.status {
        conditions =
            set_condition_true api x.service.status.conditions "IngressReady" x.service.generation
              "Ready";
      };
    };
  }

  -- The end of `Reconcile`, from SetConditionTrue
  unfoldable pub expose : Exposed → W → Result W
  unfolding apply_networking update_status set_condition_true
  expose x w = elim (apply_networking (with_ready x) w) [
    | err (fault, after) ↦ failed fault after
    | ok (after, exposed) ↦ finish (update_status server openshift exposed x.runtime after)
  ]

  -- `Reconcile` of a service with its definitions
  unfoldable pub reconcile_resolved : LogicFlowService → List LogicFlowDefinition → W → Result W
  unfolding expose
  reconcile_resolved svc [] w = failed panic w
  reconcile_resolved svc (def ∷ defs) w =
      elim (server.get_runtime w svc.namespace def.spec.runtime_ref) [
        | err e ↦ failed (unread e) w
        | ok rt ↦
            if label def label_workflow_name == "" || label def label_workflow_namespace == ""
            then requeued w
            else expose
                (record {
                  service = svc;
                  runtime = rt;
                  definitions = def ∷ defs;
                  namespace = label def label_workflow_namespace;
                  name = label def label_workflow_name;
                })
                w
      ]

  -- Reconcile
  unfoldable pub reconcile_service : String → String → W → Result W
  unfolding reconcile_resolved resolve_definitions
  reconcile_service namespace name w = elim (server.get_service w namespace name) [
    | err not_found ↦ done w
    | err (other_error text) ↦ failed (message text) w
    | ok svc ↦ elim (resolve_definitions (server.get_definition w svc.namespace) svc) [
      | err fault ↦ failed fault w
      | ok defs ↦ reconcile_resolved svc defs w
    ]
  ]
