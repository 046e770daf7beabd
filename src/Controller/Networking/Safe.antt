-- ===== src/Controller/Networking/Safe.antt =====
-- No index of the reconciler of services is out of range.
use mathlib.Core.Path.{subst}
use logic_operator.Prelude.{
  ◌≤◌, String, ◌≡◌, refl, ◌≢◌, inl, inr, Bool, true, false, not, List, ◌∷◌, length, ok, err,
  text_Eq, ◌==◌, ◌&&◌, ◌||◌, ltb, is_some, arith, Bool-cases, Option-cases, Outcome-cases,
}
use logic_operator.Prelude.Assoc.{Assoc}
use logic_operator.Api.Conditions.{ConditionsApi}
use logic_operator.Api.Definition.{
  LogicFlowDefinition, label_workflow_name, label_workflow_namespace,
}
use logic_operator.Api.Service.{GatewayRef, LogicFlowService}
use logic_operator.Gateway.Catalog.Build.{label}
use logic_operator.Controller.Pool.{Step}
use logic_operator.Controller.Traffic.{split_traffic_targets, build_traffic_targets}
use logic_operator.Controller.Ingress.{http_route_for_service}
use logic_operator.Controller.Service.{
  Fault, panic, unread, message, ServiceServer, Progress, Result, done, requeued, failed,
  resolve_definitions, then_keep, delete_stale_canary_ingresses, without_refs,
}
use logic_operator.Controller.Networking.{
  Exposed, apply_networking, apply_http_route, apply_default, apply_traffic, apply_canary_ingresses,
  apply_default_ingress, apply_route, apply_split, with_ready, finish, expose, reconcile_resolved,
  reconcile_service,
}
use logic_operator.Controller.Networking.Resolved.{
  IsResolved, Selects, split_lists, build_total, resolve_definitions-IsResolved, no_fault,
}

-- Whether a result stopped for an index that is out of range
abbrev pub panics : {W : Type 0} → Progress W → Bool
panics (ok _) = false
panics (err (panic, w)) = true
panics (err (fault, w)) = false

keep-panics : {W : Type 0} (s : Step W) (svc : LogicFlowService) → panics (then_keep s svc) ≡ false
keep-panics (ok w) svc = refl
keep-panics (err (text, w)) svc = refl

module _ (api : ConditionsApi) (range : Assoc String String → List (String × String)) {W : Type 0}
    (server : ServiceServer W) (openshift gateway_api : Bool) where
  canary-safe :
      (x : Exposed) (svc : LogicFlowService) (w : W)
      → is_some (split_traffic_targets svc x.definitions) ≡ true
      → panics (apply_canary_ingresses api range server openshift gateway_api x svc w) ≡ false
  unfolding apply_canary_ingresses
  canary-safe x svc w h = elim (Option-cases (split_traffic_targets svc x.definitions)) [
    | inl e ↦ absurd (ground (arith, e, h))
    | inr ((primary, canary), e) ↦
        rw (apply_canary_ingresses, e)
          (keep-panics (apply_split api range server openshift gateway_api x svc primary canary w)
            _)
  ]

  http_route-safe :
      (x : Exposed) (svc : LogicFlowService) (gateway : GatewayRef) (w : W)
      → is_some (build_traffic_targets svc x.definitions) ≡ true
      → panics (apply_http_route api range server openshift gateway_api x svc gateway w) ≡ false
  unfolding apply_http_route
  http_route-safe x svc gateway w h = elim (Bool-cases gateway_api) [
    | inr f ↦ rw (apply_http_route, f) refl
    | inl f ↦ elim (Option-cases (build_traffic_targets svc x.definitions)) [
      | inl e ↦ absurd (ground (arith, e, h))
      | inr (targets, e) ↦
          rw (apply_http_route, f, e)
            (keep-panics
              (server.apply_http_route w
                (http_route_for_service svc gateway x.runtime.name x.namespace x.name targets))
              _)
    ]
  ]

  default-safe :
      (x : Exposed) (svc : LogicFlowService) (w : W) (d : LogicFlowDefinition)
      (ds : List LogicFlowDefinition)
      → x.definitions ≡ d ∷ ds
      → panics (apply_default api range server openshift gateway_api x svc w) ≡ false
  unfolding apply_default apply_route apply_default_ingress
  default-safe x svc w d ds p =
      elim (Outcome-cases (delete_stale_canary_ingresses server openshift svc w)) [
        | inr ((text, after), e) ↦ rw (apply_default, e) refl
        | inl (after, e) ↦ elim (Bool-cases openshift) [
          | inl f ↦ rw (apply_default, e, p, f) (keep-panics _ _)
          | inr f ↦ rw (apply_default, e, p, f) (keep-panics _ _)
        ]
      ]

  traffic-safe :
      (x : Exposed) (svc : LogicFlowService) (w : W)
      → (length svc.spec.traffic ≤ 2 → is_some (split_traffic_targets svc x.definitions) ≡ true)
      → panics (apply_traffic api range server openshift gateway_api x svc w) ≡ false
  unfolding apply_traffic
  traffic-safe x svc w h = elim (Bool-cases openshift) [
    | inl e ↦ rw (apply_traffic, e) refl
    | inr e ↦ elim (Bool-cases (ltb 2 (length svc.spec.traffic))) [
      | inl f ↦ rw (apply_traffic, e, f) refl
      | inr f ↦ rw (apply_traffic, e, f) (canary-safe x svc w (h (ground (arith, f))))
    ]
  ]

  apply_networking-safe :
      (x : Exposed) (w : W)
      → IsResolved x.service x.definitions
      → panics (apply_networking api range server openshift gateway_api x w) ≡ false
  unfolding apply_networking apply_traffic
  apply_networking-safe x w r =
      let svc = without_refs x.service in
      elim (Option-cases x.service.spec.ingress.gateway_ref) [
        | inr (gateway, e) ↦
            rw (apply_networking, e)
              (http_route-safe x svc gateway w (
                rw r.some_definition (
                  build_total svc r.first r.others
                    (λ absent. ground (arith, r.traffic absent, r.some_definition)))))
        | inl e ↦ elim (Bool-cases (not openshift && x.service.spec.ingress.host == "")) [
          | inl f ↦ rw (apply_networking, e, f) refl
          | inr f ↦ elim (Option-cases x.service.spec.default_definition) [
            | inr (name, g) ↦
                rw (apply_networking, e, f, g)
                  (default-safe x svc w r.first r.others r.some_definition)
            | inl g ↦
                rw (apply_networking, e, f, g)
                  (traffic-safe x svc w (λ few.
                    split_lists svc svc.spec.traffic x.definitions refl (r.traffic g)
                      (rw r.some_definition (omega arith)) few))
          ]
        ]
      ]

  -- A reconciliation that stopped for an index that is out of range
  abbrev pub panicked : Result W → Bool
  panicked (done w) = false
  panicked (requeued w) = false
  panicked (failed panic w) = true
  panicked (failed fault w) = false

  failed-known : (fault : Fault) (after : W) → fault ≢ panic → panicked (failed fault after) ≡ false
  failed-known panic after h = absurd (h refl)
  failed-known (unread e) after h = refl
  failed-known (message text) after h = refl

  finish-panicked :
      (s : Step W) → panicked (finish api range server openshift gateway_api s) ≡ false
  finish-panicked (ok w) = refl
  finish-panicked (err (text, w)) = refl

  failed-panicked :
      (fault : Fault) (after : W)
      → panics {W = W} (err (fault, after)) ≡ false
      → panicked (failed fault after) ≡ false
  failed-panicked panic after h = absurd (ground (arith, h))
  failed-panicked (unread e) after h = refl
  failed-panicked (message text) after h = refl

  expose-safe :
      (x : Exposed) (w : W)
      → IsResolved x.service x.definitions
      → panicked (expose api range server openshift gateway_api x w) ≡ false
  unfolding expose
  expose-safe x w r =
      let y = with_ready api range server openshift gateway_api x in
      let safe = apply_networking-safe y w (record {
        first = r.first;
        others = r.others;
        some_definition = r.some_definition;
        traffic = r.traffic;
      }) in
      elim (Outcome-cases (apply_networking api range server openshift gateway_api y w)) [
        | inr ((fault, after), e) ↦
            rw (expose, e)
              (failed-panicked fault after (subst (λ (p : Progress W). panics p ≡ false) e safe))
        | inl ((after, exposed), e) ↦ rw (expose, e) (finish-panicked _)
      ]

  -- If a LogicFlowService names a default definition or has traffic, as the webhook demands, no
  -- reconciliation of it stops for an index that is out of range, whatever the server answers.
  pub reconcile_service-safe :
      (namespace name : String) (w : W) (svc : LogicFlowService)
      → server.get_service w namespace name ≡ ok svc
      → Selects svc
      → panicked (reconcile_service api range server openshift gateway_api namespace name w) ≡ false
  unfolding reconcile_service reconcile_resolved
  reconcile_service-safe namespace name w svc h selects =
      elim (Outcome-cases (resolve_definitions (server.get_definition w svc.namespace) svc)) [
        | inr (fault, e) ↦
            rw (reconcile_service, h, e)
              (failed-known fault w (no_fault (server.get_definition w svc.namespace) svc fault e))
        | inl (defs, e) ↦
            let r =
              resolve_definitions-IsResolved (server.get_definition w svc.namespace) svc defs
                selects e in
            rw (reconcile_service, h, e, r.some_definition)
              (elim (Outcome-cases (server.get_runtime w svc.namespace r.first.spec.runtime_ref)) [
                | inr (f, g) ↦ rw (reconcile_resolved, g) refl
                | inl (rt, g) ↦
                    elim (Bool-cases (
                      label r.first label_workflow_name == ""
                      || label r.first label_workflow_namespace == "")) [
                        | inl f ↦ rw (reconcile_resolved, g, f) refl
                        | inr f ↦
                            rw (reconcile_resolved, g, f)
                              (expose-safe
                                (record {
                                  service = svc;
                                  runtime = rt;
                                  definitions = r.first ∷ r.others;
                                  namespace = label r.first label_workflow_namespace;
                                  name = label r.first label_workflow_name;
                                })
                                w
                                (record {
                                  first = r.first;
                                  others = r.others;
                                  some_definition = refl;
                                  traffic =
                                      λ absent. ground (arith, r.traffic absent, r.some_definition);
                                }))
                      ]
              ])
      ]
