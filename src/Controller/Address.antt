-- ===== src/Controller/Address.antt =====
-- internal/controller/ingress_helpers.go: the external address of an Ingress or a Route, by what the
-- API server answers.
use logic_operator.Prelude.{
  String, Bool, List, [], ◌∷◌, Outcome, ok, err, ◌>>=◌, text_Eq, ◌==◌, if◌then◌else◌,
}
use logic_operator.Prelude.Text.{sprintf}
use logic_operator.Api.Client.{GetError, not_found, other_error}

-- routev1.Route: the hosts of its status and the host of its specification
pub record RouteHosts : Type 0 where
  pub admitted : List String
  pub host : String

-- networkingv1.Ingress: the hosts of its rules, and the name and the IP of each load balancer
pub record IngressHosts : Type 0 where
  pub rules : List String
  pub balancers : List (String × String)

-- The loop of resolveHostFromRoute, from the first host of the status that is not empty
unfoldable pub first_host : List String → String → String
first_host [] host = host
first_host (s ∷ hosts) host = let rest = first_host hosts host in if s == "" then rest else s

-- resolveHostFromRoute
unfoldable pub resolve_host_from_route : Outcome GetError RouteHosts → Outcome String String
unfolding first_host
resolve_host_from_route (err not_found) = ok ""
resolve_host_from_route (err (other_error message)) = err message
resolve_host_from_route (ok route) = ok (first_host route.admitted route.host)

-- The loop over the load balancers
unfoldable pub balancer_host : List (String × String) → String
balancer_host [] = ""
balancer_host ((name, ip) ∷ balancers) =
    let rest = balancer_host balancers in
    if name == "" then (if ip == "" then rest else ip) else name

abbrev pub rule_host : List String → String
rule_host [] = ""
rule_host (host ∷ rules) = host

-- resolveHostFromIngress
unfoldable pub resolve_host_from_ingress : Outcome GetError IngressHosts → Outcome String String
unfolding balancer_host
resolve_host_from_ingress (err not_found) = ok ""
resolve_host_from_ingress (err (other_error message)) = err message
resolve_host_from_ingress (ok ingress) =
    if rule_host ingress.rules == ""
    then ok (balancer_host ingress.balancers)
    else ok (rule_host ingress.rules)

-- ResolveIngressHost
unfoldable pub resolve_ingress_host :
    Bool → Outcome GetError RouteHosts → Outcome GetError IngressHosts → Outcome String String
unfolding resolve_host_from_route resolve_host_from_ingress
resolve_ingress_host openshift route ingress =
    if openshift then resolve_host_from_route route else resolve_host_from_ingress ingress

abbrev pub scheme_of : Bool → String
scheme_of tls = if tls then "https" else "http"

-- ResolveIngressURL
unfoldable pub resolve_ingress_url :
    Bool
    → Bool
    → Outcome GetError RouteHosts
    → Outcome GetError IngressHosts
    → Outcome String String
unfolding resolve_ingress_host sprintf
resolve_ingress_url openshift tls route ingress =
    resolve_ingress_host openshift route ingress >>= λ host.
    if host == "" then ok "" else ok (sprintf (scheme_of tls ∷ "://" ∷ host ∷ []))
