-- ===== src/Controller/Networking/Refs.antt =====
-- The references of the status after applyNetworking.
use mathlib.Core.Path.{subst}
use logic_operator.Prelude.{
  String, ◌≡◌, refl, ◌⊎◌, inl, inr, Bool, not, none, some, List, [], ◌∷◌, length, ok, err, text_Eq,
  ◌==◌, ◌&&◌, ltb, Bool-cases, Option-cases, Outcome-cases,
}
use logic_operator.Prelude.Assoc.{Assoc}
use logic_operator.Api.Conditions.{ConditionsApi}
use logic_operator.Api.Conditions.Blocks.{Blocked, Blocked-set_false}
use logic_operator.Api.Service.{LogicFlowService, GatewayRef}
use logic_operator.Controller.Pool.{Step}
use logic_operator.Controller.Traffic.{split_traffic_targets, build_traffic_targets}
use logic_operator.Controller.Service.{
  ServiceServer, Progress, then_keep, without_refs, with_ingress_ref, with_route_ref,
  with_http_route_ref, delete_stale_canary_ingresses,
}
use logic_operator.Controller.Networking.{
  Exposed, apply_networking, apply_http_route, apply_default, apply_traffic, apply_canary_ingresses,
  apply_default_ingress, apply_route, not_ready,
}

-- Exactly one reference is set, to an object with the name of the service, and the conditions are
-- the ones before; or none is set and the condition IngressReady is False.
abbrev pub IsSettled : ConditionsApi → LogicFlowService → LogicFlowService → Type 0
IsSettled api svc after =
    ((after.status.conditions ≡ svc.status.conditions)
      × (((after.status.ingress_ref ≡ some svc.name)
            × (after.status.route_ref ≡ none)
            × (after.status.http_route_ref ≡ none))
          ⊎ (((after.status.ingress_ref ≡ none)
                × (after.status.route_ref ≡ some svc.name)
                × (after.status.http_route_ref ≡ none))
              ⊎ ((after.status.ingress_ref ≡ none)
                  × (after.status.route_ref ≡ none)
                  × (after.status.http_route_ref ≡ some svc.name)))))
    ⊎ (Blocked api "IngressReady" after.status.conditions
        × (after.status.ingress_ref ≡ none)
        × (after.status.route_ref ≡ none)
        × (after.status.http_route_ref ≡ none))

-- The property holds of the service that a step ends with, if it ends well.
abbrev pub Ends : {W : Type 0} → (LogicFlowService → Type 0) → Progress W → Type 0
Ends P (ok (w, svc)) = P svc
Ends P (err e) = Unit

List-cases : {A : Type 0} (xs : List A) → (xs ≡ []) ⊎ ((y : A) × (ys : List A) × (xs ≡ y ∷ ys))
List-cases [] = inl refl
List-cases (y ∷ ys) = inr (y, ys, refl)

Ends-keep :
    {W : Type 0} (P : LogicFlowService → Type 0) (s : Step W) (svc : LogicFlowService)
    → P svc
    → Ends P (then_keep s svc)
Ends-keep P (ok w) svc h = h
Ends-keep P (err (text, w)) svc h = tt

module _ (api : ConditionsApi) (range : Assoc String String → List (String × String)) {W : Type 0}
    (server : ServiceServer W) (openshift gateway_api : Bool) (x : Exposed) where
  abbrev Goal : Progress W → Type 0
  Goal = Ends (IsSettled api x.service)

  refused :
      (reason text : String) (w : W)
      → Goal (
          ok (
            w,
            not_ready api range server openshift gateway_api (without_refs x.service) reason text,
          ))
  refused reason text w = inr (
    Blocked-set_false api "IngressReady" x.service.status.conditions x.service.generation reason
        text,
    refl,
    refl,
    refl,
  )

  ingress-settled :
      (s : Step W) → Goal (then_keep s (with_ingress_ref (without_refs x.service) x.service.name))
  ingress-settled s =
      Ends-keep (IsSettled api x.service) s
        (with_ingress_ref (without_refs x.service) x.service.name)
        (inl (refl, inl (refl, refl, refl)))

  route-settled :
      (s : Step W) → Goal (then_keep s (with_route_ref (without_refs x.service) x.service.name))
  route-settled s =
      Ends-keep (IsSettled api x.service) s (with_route_ref (without_refs x.service) x.service.name)
        (inl (refl, inr (inl (refl, refl, refl))))

  http_route-settled :
      (s : Step W)
      → Goal (then_keep s (with_http_route_ref (without_refs x.service) x.service.name))
  http_route-settled s =
      Ends-keep (IsSettled api x.service) s
        (with_http_route_ref (without_refs x.service) x.service.name)
        (inl (refl, inr (inr (refl, refl, refl))))

  default-settled :
      (w : W)
      → Goal (apply_default api range server openshift gateway_api x (without_refs x.service) w)
  unfolding apply_default apply_route apply_default_ingress
  default-settled w =
      elim (Outcome-cases
        (delete_stale_canary_ingresses server openshift (without_refs x.service) w)) [
          | inr ((text, after), e) ↦ rw (apply_default, e) tt
          | inl (after, e) ↦ elim (List-cases x.definitions) [
            | inl none_left ↦ rw (apply_default, e, none_left) tt
            | inr (d, ds, p) ↦ elim (Bool-cases openshift) [
              | inl f ↦ rw (apply_default, e, p, f) (route-settled _)
              | inr f ↦ rw (apply_default, e, p, f) (ingress-settled _)
            ]
          ]
        ]

  gateway-settled :
      (gateway : GatewayRef) (w : W)
      → Goal (
          apply_http_route api range server openshift gateway_api x
            (without_refs x.service)
            gateway
            w)
  unfolding apply_http_route
  gateway-settled gateway w = elim (Bool-cases gateway_api) [
    | inr f ↦
        rw (apply_http_route, f)
          (refused "GatewayAPINotAvailable" "Gateway API CRDs are not installed in the cluster" w)
    | inl f ↦ elim (Option-cases (build_traffic_targets (without_refs x.service) x.definitions)) [
      | inl e ↦ rw (apply_http_route, f, e) tt
      | inr (targets, e) ↦ rw (apply_http_route, f, e) (http_route-settled _)
    ]
  ]

  traffic-settled :
      (w : W)
      → Goal (apply_traffic api range server openshift gateway_api x (without_refs x.service) w)
  unfolding apply_traffic apply_canary_ingresses
  traffic-settled w = elim (Bool-cases openshift) [
    | inl f ↦
        rw (apply_traffic, f)
          (refused "GatewayRefRequired"
            "Traffic splitting on OpenShift requires gatewayRef to be set" w)
    | inr f ↦ elim (Bool-cases (ltb 2 (length x.service.spec.traffic))) [
      | inl g ↦
          rw (apply_traffic, f, g)
            (refused "GatewayRefRequired"
              "Nginx canary supports at most 2 traffic entries; use gatewayRef for 3+ versions" w)
      | inr g ↦ elim (Option-cases (split_traffic_targets (without_refs x.service) x.definitions)) [
        | inl e ↦ rw (apply_traffic, f, g, apply_canary_ingresses, e) tt
        | inr ((primary, canary), e) ↦
            rw (apply_traffic, f, g, apply_canary_ingresses, e) (ingress-settled _)
      ]
    ]
  ]

  -- If applyNetworking succeeds, the status refers to exactly one object, of the name of the
  -- service, and its conditions are those before; or it refers to none and IngressReady is False.
  pub apply_networking-IsSettled :
      (w after : W) (svc : LogicFlowService)
      → apply_networking api range server openshift gateway_api x w ≡ ok (after, svc)
      → IsSettled api x.service svc
  unfolding apply_networking
  apply_networking-IsSettled w after svc h =
      subst Goal h (elim (Option-cases x.service.spec.ingress.gateway_ref) [
        | inr (gateway, e) ↦ rw (apply_networking, e) (gateway-settled gateway w)
        | inl e ↦ elim (Bool-cases (not openshift && x.service.spec.ingress.host == "")) [
          | inl f ↦
              rw (apply_networking, e, f)
                (refused "IngressMisconfigured"
                  "spec.ingress.host is required for nginx Ingress mode" w)
          | inr f ↦ elim (Option-cases x.service.spec.default_definition) [
            | inr (name, g) ↦ rw (apply_networking, e, f, g) (default-settled w)
            | inl g ↦ rw (apply_networking, e, f, g) (traffic-settled w)
          ]
        ]
      ])
