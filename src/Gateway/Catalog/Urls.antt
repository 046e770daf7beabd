-- ===== src/Gateway/Catalog/Urls.antt =====
-- workflow-gateway/internal/catalog/validate.go. `url.Parse` is a parameter: it answers the scheme
-- and the host name. Lower case is that of ASCII.
pub mod Host
pub mod External
use logic_operator.Prelude.{
  ℕ, String, ◌≡◌, ◌↔◌, ◌⊎◌, ◌≢◌, true, false, ◌&&◌, ◌||◌, not, List, ◌++◌, map, arith, text_Eq,
  ◌==◌, if◌then◌else◌, Outcome, ok, err, inl, inr, Outcome-cases, Bool-cases,
}
use logic_operator.Prelude.Text.{
  codes, ends_with, ends_with_iff, contains_code, lower_code, trim_dot,
}

pub record ParsedUrl : Type 0 where
  pub scheme : String
  pub hostname : String

pub data UrlError : Type 0 where
  malformed : String → UrlError
  no_scheme : UrlError
  unsupported_scheme : String → UrlError
  empty_host : UrlError
  cluster_internal : String → UrlError
  single_label : String → UrlError

-- `hostLower` after both assignments
unfoldable pub host_lower : String → List ℕ
host_lower host = trim_dot (map lower_code (codes host))

unfoldable pub check_host : String → Outcome UrlError (Unit {0})
check_host host =
    if ends_with (host_lower host) (codes ".svc")
      || ends_with (host_lower host) (codes ".svc.cluster.local")
    then err (cluster_internal host)
    else if not (contains_code b'.' (host_lower host))
    then err (single_label host)
    else ok tt

unfoldable pub check_url : ParsedUrl → Outcome UrlError (Unit {0})
unfolding check_host
check_url parsed =
    if parsed.scheme == ""
    then err no_scheme
    else if not (parsed.scheme == "http") && not (parsed.scheme == "https")
    then err (unsupported_scheme parsed.scheme)
    else if parsed.hostname == ""
    then err empty_host
    else check_host parsed.hostname

-- ValidateExternalURL
unfoldable pub validate_external_url :
    (String → Outcome String ParsedUrl) → String → Outcome UrlError (Unit {0})
unfolding check_url
validate_external_url parse raw = elim (parse raw) [
  | err message ↦ err (malformed message)
  | ok parsed ↦ check_url parsed
]
