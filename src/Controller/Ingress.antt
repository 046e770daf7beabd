-- ===== src/Controller/Ingress.antt =====
-- internal/controller/logicflowservice_objects.go: the objects that expose a LogicFlowService. A loop
-- over the annotations of the resource sees them in the order `range`.
pub mod Annotations
use logic_operator.Prelude.{
  ℕ, ◌-◌, String, Bool, true, false, Option, none, some, List, [], ◌∷◌, map, text_Eq, ◌==◌,
  if◌then◌else◌, ltb, ◌||◌,
}
use logic_operator.Prelude.Assoc.{Assoc, put, put_all}
use logic_operator.Prelude.Text.{sprintf, show_number}
use logic_operator.Api.Service.{LogicFlowService, CertManagerIssuerRef, GatewayRef}
use logic_operator.Controller.Objects.{Object, Owner, owner_ref, child_labels}
use logic_operator.Controller.Traffic.{TrafficTarget}

pub data PathType : Type 0 where
  path_prefix implementation_specific : PathType

-- IngressTLS
pub record IngressTls : Type 0 where
  pub hosts : List String
  pub secret_name : Option String

-- IngressApplyConfiguration with its one rule and one path
pub record Ingress : Type 0 where
  pub name : String
  pub namespace : String
  pub labels : Assoc String String
  pub annotations : Assoc String String
  pub owner : Owner
  pub host : Option String
  pub path : String
  pub path_type : PathType
  pub service : String
  pub port : ℕ
  pub class_name : Option String
  pub tls : Option IngressTls

-- routev1.Route
pub record Route : Type 0 where
  pub name : String
  pub namespace : String
  pub labels : Assoc String String
  pub annotations : Assoc String String
  pub owner : Owner
  pub host : String
  pub path : String
  pub service : String
  pub weight : ℕ
  pub target_port : ℕ
  -- whether the TLS configuration reencrypts and redirects
  pub tls : Bool

-- HTTPBackendRef with its one filter, which replaces the prefix of the path
pub record Backend : Type 0 where
  pub service : String
  pub port : ℕ
  pub weight : Option ℕ
  pub replace_prefix : String

-- HTTPRouteRule with its one match, on a prefix of the path
pub record RouteRule : Type 0 where
  pub prefix : String
  pub backends : List Backend

-- HTTPRouteApplyConfiguration
pub record HttpRoute : Type 0 where
  pub name : String
  pub namespace : String
  pub labels : Assoc String String
  pub annotations : Assoc String String
  pub owner : Owner
  pub parent : GatewayRef
  pub hostnames : List String
  pub rules : List RouteRule

abbrev pub object_of : LogicFlowService → Object
object_of svc = record {
  name = svc.name;
  namespace = svc.namespace;
  uid = svc.uid;
  labels = svc.labels;
}

-- quarkusFlowPath
unfoldable pub quarkus_flow_path : String → String → String → String
unfolding sprintf
quarkus_flow_path namespace name version =
    if version == ""
    then sprintf ("/q/flow/exec/" ∷ namespace ∷ "/" ∷ name ∷ [])
    else sprintf ("/q/flow/exec/" ∷ namespace ∷ "/" ∷ name ∷ "/" ∷ version ∷ [])

-- `strconv.FormatInt` of an int32
unfoldable pub show_int32 : ℕ → String
unfolding sprintf
show_int32 n =
    if ltb n 2147483648 then show_number n else sprintf ("-" ∷ show_number (4294967296 - n) ∷ [])

abbrev pub non_empty : String → Option String
non_empty s = if s == "" then none else some s

abbrev pub issuer_annotation : CertManagerIssuerRef → String
issuer_annotation issuer =
    if issuer.kind == "ClusterIssuer" || issuer.kind == ""
    then "cert-manager.io/cluster-issuer"
    else "cert-manager.io/issuer"

-- applyCertManagerAnnotations
unfoldable pub apply_cert_manager_annotations :
    LogicFlowService → Assoc String String → Assoc String String
apply_cert_manager_annotations svc annotations =
    if svc.spec.ingress.tls.enabled
    then elim svc.spec.ingress.tls.cert_manager [
      | none ↦ annotations
      | some issuer ↦ put (issuer_annotation issuer) issuer.name annotations
    ]
    else annotations

abbrev pub tls_hosts : String → List String
tls_hosts host = if host == "" then [] else host ∷ []

-- applyIngressTLS
unfoldable pub apply_ingress_tls : LogicFlowService → Option IngressTls
unfolding sprintf
apply_ingress_tls svc =
    if svc.spec.ingress.tls.enabled
    then some (record {
      hosts = tls_hosts svc.spec.ingress.host;
      secret_name =
          if svc.spec.ingress.tls.secret_ref == ""
          then elim svc.spec.ingress.tls.cert_manager [
            | none ↦ none
            | some _ ↦ some (sprintf (svc.name ∷ "-tls" ∷ []))
          ]
          else some svc.spec.ingress.tls.secret_ref;
    })
    else none

module _ (range : Assoc String String → List (String × String)) where
  -- applyUserAnnotations
  unfoldable pub apply_user_annotations :
      LogicFlowService → Assoc String String → Assoc String String
  apply_user_annotations svc annotations = put_all annotations (range svc.spec.ingress.annotations)

  -- The common part of the three builders of an Ingress; `runtime` is the name of the runtime.
  abbrev pub ingress_of :
      LogicFlowService → String → String → Assoc String String → String → PathType → Ingress
  ingress_of svc runtime name annotations path kind = record {
    name = name;
    namespace = svc.namespace;
    labels = child_labels (object_of svc);
    annotations = annotations;
    owner = owner_ref (object_of svc) "LogicFlowService";
    host = non_empty svc.spec.ingress.host;
    path = path;
    path_type = kind;
    service = runtime;
    port = 80;
    class_name = svc.spec.ingress.ingress_class_name;
    tls = apply_ingress_tls svc;
  }

  abbrev pub rewrite_annotation : Bool → String → Assoc String String
  rewrite_annotation true path = []
  rewrite_annotation false path = ("nginx.ingress.kubernetes.io/rewrite-target", path) ∷ []

  -- ingressForService
  unfoldable pub ingress_for_service :
      LogicFlowService → String → String → String → String → Bool → Ingress
  unfolding apply_user_annotations apply_cert_manager_annotations apply_ingress_tls
      quarkus_flow_path owner_ref child_labels
  ingress_for_service svc runtime namespace name version passthrough =
      ingress_of svc runtime svc.name
        (apply_cert_manager_annotations svc (
          apply_user_annotations svc
            (rewrite_annotation passthrough (quarkus_flow_path namespace name version))))
        "/" path_prefix

  -- canaryIngressForService
  unfoldable pub canary_ingress_for_service :
      LogicFlowService → String → String → String → String → ℕ → Ingress
  unfolding apply_user_annotations apply_ingress_tls quarkus_flow_path show_int32 owner_ref
      child_labels sprintf
  canary_ingress_for_service svc runtime namespace name version weight =
      ingress_of svc runtime (sprintf (svc.name ∷ "-canary" ∷ []))
        (apply_user_annotations svc (
          ("nginx.ingress.kubernetes.io/rewrite-target", quarkus_flow_path namespace name version)
          ∷ ("nginx.ingress.kubernetes.io/canary", "true")
          ∷ ("nginx.ingress.kubernetes.io/canary-weight", show_int32 weight)
          ∷ []))
        "/" path_prefix

  -- directVersionIngress
  unfoldable pub direct_version_ingress : LogicFlowService → String → String → String → Ingress
  unfolding apply_user_annotations apply_ingress_tls owner_ref child_labels sprintf
  direct_version_ingress svc runtime namespace name =
      ingress_of svc runtime (sprintf (svc.name ∷ "-direct" ∷ []))
        (apply_user_annotations svc (
          (
            "nginx.ingress.kubernetes.io/rewrite-target",
            sprintf ("/q/flow/exec/" ∷ namespace ∷ "/" ∷ name ∷ "/$1" ∷ []),
          )
          ∷ ("nginx.ingress.kubernetes.io/use-regex", "true")
          ∷ []))
        "/v/(.+)" implementation_specific

  -- routeForDefault
  unfoldable pub route_for_default : LogicFlowService → String → Route
  unfolding apply_user_annotations owner_ref child_labels
  route_for_default svc runtime = record {
    name = svc.name;
    namespace = svc.namespace;
    labels = child_labels (object_of svc);
    annotations = apply_user_annotations svc [];
    owner = owner_ref (object_of svc) "LogicFlowService";
    host = svc.spec.ingress.host;
    path = "/";
    service = runtime;
    weight = 100;
    target_port = 80;
    tls = svc.spec.ingress.tls.enabled;
  }

-- The backends of httpRouteForService, one for each target
unfoldable pub weighted_backends : String → String → String → List TrafficTarget → List Backend
unfolding quarkus_flow_path
weighted_backends runtime namespace name targets =
    map
      (λ (t : TrafficTarget). record {
        service = runtime;
        port = 80;
        weight = some t.weight;
        replace_prefix = quarkus_flow_path namespace name t.version;
      })
      targets

abbrev pub direct_backend : String → String → String → Backend
direct_backend runtime namespace name = record {
  service = runtime;
  port = 80;
  weight = none;
  replace_prefix = quarkus_flow_path namespace name "";
}

-- httpRouteForService of a service with this gatewayRef
unfoldable pub http_route_for_service :
    LogicFlowService → GatewayRef → String → String → String → List TrafficTarget → HttpRoute
unfolding weighted_backends quarkus_flow_path owner_ref child_labels
http_route_for_service svc gateway runtime namespace name targets = record {
  name = svc.name;
  namespace = svc.namespace;
  labels = child_labels (object_of svc);
  annotations = svc.spec.ingress.annotations;
  owner = owner_ref (object_of svc) "LogicFlowService";
  parent = gateway;
  hostnames = tls_hosts svc.spec.ingress.host;
  rules =
      record { prefix = "/v/"; backends = direct_backend runtime namespace name ∷ [] }
      ∷ record { prefix = "/"; backends = weighted_backends runtime namespace name targets }
      ∷ [];
}
