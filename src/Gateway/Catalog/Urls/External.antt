-- ===== src/Gateway/Catalog/Urls/External.antt =====
-- Which URLs ValidateExternalURL accepts, by the characters of the host as it is written.
use logic_operator.Prelude.{
  String, ◌≡◌, refl, [], ◌∷◌, ap, ◌↔◌, ◌⊎◌, ◌≢◌, true, arith, text_Eq, Outcome, ok, inl, inr,
  Outcome-cases, Bool-cases,
}
use logic_operator.Prelude.Text.{codes, ends_with, contains_code, lower_code, trim_dot}
use logic_operator.Gateway.Catalog.Urls.{
  ParsedUrl, host_lower, check_host, check_url, validate_external_url,
}
use logic_operator.Gateway.Catalog.Urls.Host.{
  EndsIn, HasInnerDot, IsLower-fixed, ends_with-EndsIn, contains_code-HasInnerDot,
}

-- A URL that leaves the cluster.
pub record IsExternal (parsed : ParsedUrl) : Type 0 where
  pub web : (parsed.scheme ≡ "http") ⊎ (parsed.scheme ≡ "https")
  pub not_service : ¬ EndsIn (codes parsed.hostname) (codes ".svc")
  pub not_cluster : ¬ EndsIn (codes parsed.hostname) (codes ".svc.cluster.local")
  pub dotted : HasInnerDot (codes parsed.hostname)

service_iff :
    (host : String)
    → (ends_with (host_lower host) (codes ".svc") ≡ true) ↔ EndsIn (codes host) (codes ".svc")
unfolding host_lower lower_code trim_dot
service_iff host =
    ends_with-EndsIn (codes host) (codes ".svc") (IsLower-fixed (codes ".svc") refl) refl (λ e. cc)

cluster_iff :
    (host : String)
    → (ends_with (host_lower host) (codes ".svc.cluster.local") ≡ true)
      ↔ EndsIn (codes host) (codes ".svc.cluster.local")
unfolding host_lower lower_code trim_dot
cluster_iff host =
    ends_with-EndsIn (codes host) (codes ".svc.cluster.local")
      (IsLower-fixed (codes ".svc.cluster.local") refl) refl (λ e. cc)

dotted_iff :
    (host : String) → (contains_code b'.' (host_lower host) ≡ true) ↔ HasInnerDot (codes host)
unfolding host_lower
dotted_iff host = contains_code-HasInnerDot (codes host)

not_empty : (host : String) → HasInnerDot (codes host) → host ≢ ""
not_empty host ([], c, q, e) p = cc (ap codes p, e)
not_empty host (d ∷ r, c, q, e) p = cc (ap codes p, e)

check_host-IsExternal :
    (host : String)
    → (check_host host ≡ ok tt) ↔ (
        (¬ EndsIn (codes host) (codes ".svc"))
        × (¬ EndsIn (codes host) (codes ".svc.cluster.local"))
        × HasInnerDot (codes host))
unfolding check_host
check_host-IsExternal host =
    let one = service_iff host in
    let two = cluster_iff host in
    let three = dotted_iff host in
    (
      λ h. (
        λ e. ground (arith, h, one.1 e),
        λ e. ground (arith, h, two.1 e),
        three.0 (ground (arith, h)),
      ),
      λ w. elim (Bool-cases (ends_with (host_lower host) (codes ".svc"))) [
        | inl e ↦ absurd (w.0 (one.0 e))
        | inr e ↦ elim (Bool-cases (ends_with (host_lower host) (codes ".svc.cluster.local"))) [
          | inl f ↦ absurd (w.1 (two.0 f))
          | inr f ↦ ground (arith, e, f, three.1 w.2)
        ]
      ],
    )

check_url-IsExternal : (parsed : ParsedUrl) → (check_url parsed ≡ ok tt) ↔ IsExternal parsed
unfolding check_url
check_url-IsExternal parsed =
    let (there, back) = check_host-IsExternal parsed.hostname in
    let empty = text_Eq.same_iff parsed.hostname "" in
    let none = text_Eq.same_iff parsed.scheme "" in
    let http = text_Eq.same_iff parsed.scheme "http" in
    let https = text_Eq.same_iff parsed.scheme "https" in
    (
      λ h.
          let w = there (ground (arith, h)) in
          record {
            web = ground (arith, h, http, https);
            not_service = w.0;
            not_cluster = w.1;
            dotted = w.2;
          },
      λ x. ground (
        arith,
        x.web,
        not_empty parsed.hostname x.dotted,
        back (x.not_service, x.not_cluster, x.dotted),
        empty,
        none,
        http,
        https,
        text_Eq.same_iff "http" "",
        text_Eq.same_iff "https" "",
      ),
    )

-- `ValidateExternalURL` accepts a URL exactly when it parses, its scheme is http or https, a dot
-- stands before the last character of its host, and the host does not end in `.svc` or
-- `.svc.cluster.local`, in any case of the letters from A to Z and with or without a final dot.
pub validate_external_url-IsExternal :
    (parse : String → Outcome String ParsedUrl) (raw : String)
    → (validate_external_url parse raw ≡ ok tt)
      ↔ ((parsed : ParsedUrl) × (parse raw ≡ ok parsed) × IsExternal parsed)
unfolding validate_external_url
validate_external_url-IsExternal parse raw = (
  λ h. elim (Outcome-cases (parse raw)) [
    | inl (parsed, e) ↦ (parsed, e, (check_url-IsExternal parsed).0 (ground (arith, e, h)))
    | inr (m, e) ↦ absurd (ground (arith, e, h))
  ],
  λ w. ground (arith, w.1, (check_url-IsExternal w.0).1 w.2),
)
