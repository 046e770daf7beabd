-- ===== src/Controller/Runner/Image.antt =====
-- The image of a runner.
use Prim.Native.Char.{code}
use text.Mathlib.TextLemmas.{nil-append, cons-append}
use Prim.Native.String.{◌++◌ as text_append}
use mathlib.Core.List.{append_assoc}
use logic_operator.Prelude.{
  ℕ, String, ◌≡◌, refl, ◌≢◌, ap, ◌∙◌, sym, false, Option, none, some, List, [], ◌∷◌, ◌++◌,
  get_elem?, text_Eq, ◌==◌, if◌then◌else◌, arith, Bool-cases, Option-cases, inl, inr, ok,
}
use logic_operator.Prelude.Text.{codes, sprintf, ends_with, ends_with_iff}
use logic_operator.Api.Application.{PersistenceOptionsSpec, ApplicationSpec}
use logic_operator.Api.Container.{Container}
use logic_operator.Api.Runtime.{LogicFlowRuntime}
use logic_operator.Admission.Runtime.{has_persistence, validate, validate_runner_image, security_of}
use logic_operator.Controller.Workload.{apply_options, resolve_container, apply_container_fields}
use logic_operator.Controller.Quarkus.{
  default_runner_image, runner_image, has_image, default_quarkus_probes, with_flow_volume_mounts,
  durable_startup_probe,
}
use logic_operator.Controller.Variables.{
  with_quarkus_persistence_env_vars, with_security_env_vars, with_structured_logging_env_vars,
  with_flow_source_path, with_durable_env_vars,
}
use logic_operator.Controller.Runner.{deployment_of, container_options}
use logic_operator.Controller.Runner.Fixed.{deployment_of-main}

last : List ℕ → ℕ
last [] = 0
last (x ∷ []) = x
last (x ∷ y ∷ xs) = last (y ∷ xs)

last-append : (xs : List ℕ) (y : ℕ) (ys : List ℕ) → last (xs ++ (y ∷ ys)) ≡ last (y ∷ ys)
unfolding last
last-append [] y ys = refl
last-append (x ∷ []) y ys = refl
last-append (x ∷ z ∷ xs) y ys = last-append (z ∷ xs) y ys

codes-append : (s t : String) → codes (text_append s t) ≡ codes s ++ codes t
codes-append String.[] t = rw nil-append refl
codes-append (String.◌∷◌ c s) t = rw cons-append (ap (◌∷◌ (code c)) (codes-append s t))

-- What a text ends with has the same last character.
ends_with-last :
    (s t : List ℕ) (x y : ℕ) (xs ys : List ℕ)
    → last (x ∷ xs) ≢ last (y ∷ ys)
    → s ≡ t ++ (x ∷ xs)
    → ends_with s (y ∷ ys) ≡ false
ends_with-last s t x y xs ys differs p = elim (Bool-cases (ends_with s (y ∷ ys))) [
  | inr e ↦ e
  | inl e ↦
      let (q, r) = (ends_with_iff s (y ∷ ys)).0 e in
      absurd (differs (sym (last-append t x xs) ∙ ap last (sym p ∙ r) ∙ last-append q y ys))
]

image_codes :
    (version variant : String)
    → codes (runner_image version variant)
      ≡ codes "quay.io/quarkiverse/quarkus-flow-runner:"
        ++ (codes version ++ codes (text_append "-" (text_append variant "")))
unfolding runner_image sprintf
image_codes version variant =
    codes-append "quay.io/quarkiverse/quarkus-flow-runner:" _
    ∙ ap (λ (r : List ℕ). codes "quay.io/quarkiverse/quarkus-flow-runner:" ++ r)
        (codes-append version _)

abbrev before : String → List ℕ
before version = codes "quay.io/quarkiverse/quarkus-flow-runner:" ++ codes version

standard-ne-minimal :
    (version : String)
    → ends_with (codes (runner_image version "standard")) (codes "-minimal") ≡ false
unfolding last
standard-ne-minimal version =
    ends_with-last (codes (runner_image version "standard")) (before version) b'-' b'-'
      (codes "standard") (codes "minimal") (λ p. ground (arith, p))
      (image_codes version "standard"
        ∙ sym (append_assoc (codes "quay.io/quarkiverse/quarkus-flow-runner:") (codes version) _))

minimal-ne-standard :
    (version : String)
    → ends_with (codes (runner_image version "minimal")) (codes "-standard") ≡ false
unfolding last
minimal-ne-standard version =
    ends_with-last (codes (runner_image version "minimal")) (before version) b'-' b'-'
      (codes "minimal") (codes "standard") (λ p. ground (arith, p))
      (image_codes version "minimal"
        ∙ sym (append_assoc (codes "quay.io/quarkiverse/quarkus-flow-runner:") (codes version) _))

-- The image that is chosen suits the persistence.
default-valid :
    (version : String) (persistence : Option PersistenceOptionsSpec) (c : Container)
    → has_image c.image ≡ false
    → (image : String) × ((default_runner_image version persistence c).image ≡ some image)
      × (validate_runner_image image persistence ≡ ok tt)
unfolding default_runner_image validate_runner_image
default-valid version persistence c h = elim (Bool-cases (has_persistence persistence)) [
  | inl e ↦ (
    runner_image version "standard",
    ground (arith, h, e),
    ground (arith, e, standard-ne-minimal version),
  )
  | inr e ↦ (
    runner_image version "minimal",
    ground (arith, h, e),
    ground (arith, e, minimal-ne-standard version),
  )
]

-- The options after the first leave the image.
options_image :
    (version : String) (rt : LogicFlowRuntime) (names : List String) (c : Container)
    → (apply_options (container_options version rt names) c).image
      ≡ (default_runner_image version rt.spec.persistence c).image
unfolding apply_options with_quarkus_persistence_env_vars with_security_env_vars
    with_structured_logging_env_vars default_quarkus_probes with_flow_source_path
    with_flow_volume_mounts with_durable_env_vars durable_startup_probe
options_image version rt names c = elim (Option-cases rt.spec.persistence) [
  | inl e ↦ ground (arith, e)
  | inr (p, e) ↦ ground (arith, e)
]

-- The image of the resource, if its containers set none
resolved_image :
    (app : ApplicationSpec)
    → app.container.image ≡ ""
    → app.pod_template.container.image ≡ ""
    → (resolve_container "logic-runner" app).image
      ≡ (if app.image == "" then none else some app.image)
unfolding resolve_container apply_container_fields
resolved_image app h k = ground (
  arith,
  h,
  k,
  text_Eq.same_iff app.container.image "",
  text_Eq.same_iff app.pod_template.container.image "",
)

-- If a LogicFlowRuntime passes the webhook and its container fields set no image, the main container
-- of its Deployment has an image that ValidateRunnerImage accepts for its persistence, whatever the
-- version of the runner is.
pub deployment_of-image :
    (version : String) (rt : LogicFlowRuntime) (names : List String)
    → validate rt ≡ ok tt
    → rt.spec.application.container.image ≡ ""
    → rt.spec.application.pod_template.container.image ≡ ""
    → (c : Container) × (image : String) × (get_elem?
          (deployment_of version rt names).spec.template.pod.containers
          0
        ≡ some c)
      × (c.image ≡ some image)
      × (validate_runner_image image rt.spec.persistence ≡ ok tt)
unfolding default_runner_image
deployment_of-image version rt names admitted h k =
    let app = rt.spec.application in
    let base = resolve_container "logic-runner" app in
    let main = apply_options (container_options version rt names) base in
    let known = resolved_image app h k in
    elim (Bool-cases (app.image == "")) [
      | inl e ↦
          let (image, chosen, valid) =
            default-valid version rt.spec.persistence base (ground (arith, known, e)) in
          (
            main,
            image,
            deployment_of-main version rt names,
            options_image version rt names base ∙ chosen,
            valid,
          )
      | inr e ↦ (
        main,
        app.image,
        deployment_of-main version rt names,
        options_image version rt names base ∙ ground (arith, known, e),
        (security_of rt admitted).1,
      )
    ]
