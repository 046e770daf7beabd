-- ===== src/Controller/Status/Ready.antt =====
-- What the parts of the status say of the workload.
use mathlib.Core.Path.{subst}
use logic_operator.Prelude.{
  Outcome-cases, Option-cases, leb, ℕ, ◌≤◌, String, ◌≡◌, refl, ◌⊎◌, inl, inr, Bool, true, false,
  none, List, [], ◌∷◌, Outcome, ok, err, arith, text_Eq, ◌==◌, ◌&&◌, ◌||◌, length, Bool-cases,
}
use logic_operator.Api.Client.{GetError, not_found, other_error}
use logic_operator.Api.Conditions.{
  ConditionsApi, Status, condition_true, condition_false, condition_unknown, is_false,
}
use logic_operator.Api.Conditions.Blocks.{Blocked, Blocked-set_false, Blocked-set_other}
use logic_operator.Api.Runtime.{LogicFlowRuntime}
use logic_operator.Controller.Pool.{Deployment, DeploymentCondition, Lease}
use logic_operator.Controller.Workload.{effective_replicas}
use logic_operator.Controller.Status.{
  step_condition, conditions_loop, update_status_deployment, update_status_svc,
  update_status_leases, lease_condition, set, with_counts,
}

abbrev is_true : Status → Bool
is_true condition_true = true
is_true _ = false

-- Some condition says that the Deployment is available.
unfoldable pub has_available : List DeploymentCondition → Bool
has_available [] = false
has_available (c ∷ conditions) =
    (c.kind == "Available" && is_true c.status) || has_available conditions

-- The two agree on what the status does not change, and on the number of ready replicas.
pub record Agrees (a b : LogicFlowRuntime) : Type 0 where
  pub spec : a.spec ≡ b.spec
  pub ready_replicas : a.status.ready_replicas ≡ b.status.ready_replicas

pub Status-cases :
    (s : Status) → (s ≡ condition_true) ⊎ ((s ≡ condition_false) ⊎ (s ≡ condition_unknown))
Status-cases condition_true = inl refl
Status-cases condition_false = inr (inl refl)
Status-cases condition_unknown = inr (inr refl)

module _ (api : ConditionsApi) where
  -- One condition of the Deployment leaves the status, sets False, or sets True.
  step_cases :
      (P : LogicFlowRuntime → Type 0) (rt : LogicFlowRuntime) (c : DeploymentCondition)
      → P rt
      → P (set api rt "DeploymentAvailable" condition_false c.reason c.message)
      → ((c.kind == "Available" && is_true c.status) ≡ true
          → P (set api rt "DeploymentAvailable" condition_true c.reason c.message))
      → P (step_condition api rt c)
  unfolding step_condition
  step_cases P rt c keep sets_false sets_true = elim (Bool-cases (c.kind == "Available")) [
    | inl e ↦ elim (Status-cases c.status) [
      | inl f ↦ rw (step_condition, e, f) (sets_true (ground (arith, e, f)))
      | inr (inl f) ↦ rw (step_condition, e, f) sets_false
      | inr (inr f) ↦ rw (step_condition, e, f) keep
    ]
    | inr e ↦
        elim (Bool-cases (
          c.kind == "Progressing"
          && (is_false c.status && c.reason == "ProgressDeadlineExceeded"))) [
            | inl f ↦ rw (step_condition, e, f) sets_false
            | inr f ↦ rw (step_condition, e, f) keep
          ]
  ]

  step-Blocked :
      (rt : LogicFlowRuntime) (c : DeploymentCondition)
      → (c.kind == "Available" && is_true c.status) ≡ false
      → Blocked api "DeploymentAvailable" rt.status.conditions
      → Blocked api "DeploymentAvailable" (step_condition api rt c).status.conditions
  step-Blocked rt c h b =
      step_cases (λ (r : LogicFlowRuntime). Blocked api "DeploymentAvailable" r.status.conditions)
        rt c b
        (Blocked-set_false api "DeploymentAvailable" rt.status.conditions rt.generation c.reason
          c.message)
        (λ e. absurd (ground (arith, h, e)))

  loop-Blocked :
      (rt : LogicFlowRuntime) (cs : List DeploymentCondition)
      → has_available cs ≡ false
      → Blocked api "DeploymentAvailable" rt.status.conditions
      → Blocked api "DeploymentAvailable" (conditions_loop api rt cs).status.conditions
  unfolding conditions_loop has_available
  loop-Blocked rt [] h b = b
  loop-Blocked rt (c ∷ cs) h b =
      loop-Blocked (step_condition api rt c) cs (ground (arith, h))
        (step-Blocked rt c (ground (arith, h)) b)

  step-Agrees :
      (rt : LogicFlowRuntime) (c : DeploymentCondition) → Agrees (step_condition api rt c) rt
  unfolding step_condition
  step-Agrees rt c = record { spec = ground arith; ready_replicas = ground arith }

  loop-Agrees :
      (rt : LogicFlowRuntime) (cs : List DeploymentCondition)
      → Agrees (conditions_loop api rt cs) rt
  unfolding conditions_loop
  loop-Agrees rt [] = record { spec = refl; ready_replicas = refl }
  loop-Agrees rt (c ∷ cs) =
      let next = loop-Agrees (step_condition api rt c) cs in
      let first = step-Agrees rt c in
      record {
        spec = ground (arith, next.spec, first.spec);
        ready_replicas = ground (arith, next.ready_replicas, first.ready_replicas);
      }

  -- updateStatusDeployment leaves the specification, and a False condition or an available
  -- Deployment with its number of ready replicas.
  abbrev pub Deployed : Outcome GetError Deployment → LogicFlowRuntime → LogicFlowRuntime → Type 0
  Deployed got rt r =
      (r.spec ≡ rt.spec)
      × (Blocked api "DeploymentAvailable" r.status.conditions
          ⊎ ((d : Deployment) × (got ≡ ok d)
              × (has_available d.conditions ≡ true)
              × (r.status.ready_replicas ≡ d.ready_replicas)))

  pub update_status_deployment-Deployed :
      (got : Outcome GetError Deployment) (rt after : LogicFlowRuntime)
      → update_status_deployment api got rt ≡ ok after
      → Deployed got rt after
  unfolding update_status_deployment
  update_status_deployment-Deployed (ok d) rt after h =
      let start =
        set api (with_counts rt d.ready_replicas d.replicas) "DeploymentAvailable" condition_false
          "DeploymentProgressing" "" in
      let agrees = loop-Agrees start d.conditions in
      let p : conditions_loop api start d.conditions ≡ after = ground (arith, h) in
      subst (Deployed (ok d) rt) p (
        agrees.spec,
        elim (Bool-cases (has_available d.conditions)) [
          | inl e ↦ inr (d, refl, e, agrees.ready_replicas)
          | inr e ↦ inl (
              loop-Blocked start d.conditions e (
                Blocked-set_false api "DeploymentAvailable" rt.status.conditions rt.generation
                  "DeploymentProgressing" ""))
        ],
      )
  update_status_deployment-Deployed (err not_found) rt after h =
      let p : set api (with_counts rt 0 0) "DeploymentAvailable" condition_false
            "DeploymentNotFound" ""
          ≡ after =
        ground (arith, h) in
      subst (Deployed (err not_found) rt) p (
        refl,
        inl (
            Blocked-set_false api "DeploymentAvailable" rt.status.conditions rt.generation
              "DeploymentNotFound" ""),
      )
  update_status_deployment-Deployed (err (other_error message)) rt after h =
      absurd (ground (arith, h))

  -- The step sets no condition but that of type `own`.
  abbrev pub Sets : String → LogicFlowRuntime → LogicFlowRuntime → Type 0
  Sets own rt r =
      Agrees r rt
      × ((kind : String)
          → (own == kind) ≡ false
          → Blocked api kind rt.status.conditions
          → Blocked api kind r.status.conditions)

  set-Sets :
      (rt : LogicFlowRuntime) (own : String) (status : Status) (reason message : String)
      → Sets own rt (set api rt own status reason message)
  set-Sets rt own status reason message = (
    record { spec = refl; ready_replicas = refl },
    λ kind differs b.
        Blocked-set_other api kind own rt.status.conditions status rt.generation reason message
          differs b,
  )

  abbrev pub Served : Outcome GetError (Unit {0}) → LogicFlowRuntime → LogicFlowRuntime → Type 0
  Served got rt r =
      Sets "ServiceReady" rt r
      × (Blocked api "ServiceReady" r.status.conditions ⊎ ((u : Unit {0}) × (got ≡ ok u)))

  pub update_status_svc-Served :
      (got : Outcome GetError (Unit {0})) (rt after : LogicFlowRuntime)
      → update_status_svc api got rt ≡ ok after
      → Served got rt after
  unfolding update_status_svc
  update_status_svc-Served (ok u) rt after h =
      let p : set api rt "ServiceReady" condition_true "Ready" "" ≡ after = ground (arith, h) in
      subst (Served (ok u) rt) p
        (set-Sets rt "ServiceReady" condition_true "Ready" "", inr (u, refl))
  update_status_svc-Served (err not_found) rt after h =
      let p : set api rt "ServiceReady" condition_false "ServiceNotFound" "" ≡ after =
        ground (arith, h) in
      subst (Served (err not_found) rt) p (
        set-Sets rt "ServiceReady" condition_false "ServiceNotFound" "",
        inl (
            Blocked-set_false api "ServiceReady" rt.status.conditions rt.generation
              "ServiceNotFound" ""),
      )
  update_status_svc-Served (err (other_error message)) rt after h = absurd (ground (arith, h))

  abbrev pub Leased : Outcome String (List Lease) → LogicFlowRuntime → LogicFlowRuntime → Type 0
  Leased listed rt r =
      Sets "LeaseReady" rt r
      × ((rt.spec.persistence ≡ none)
          ⊎ (Blocked api "LeaseReady" r.status.conditions
              ⊎ ((leases : List Lease) × (listed ≡ ok leases)
                  × (effective_replicas rt.spec.application ≤ length leases))))

  abbrev Counted : ℕ → ℕ → LogicFlowRuntime → LogicFlowRuntime → Type 0
  Counted count desired rt r =
      Sets "LeaseReady" rt r × (Blocked api "LeaseReady" r.status.conditions ⊎ (desired ≤ count))

  lease_condition-Counted :
      (count desired : ℕ) (rt : LogicFlowRuntime)
      → Counted count desired rt (lease_condition api count desired rt)
  unfolding lease_condition
  lease_condition-Counted count desired rt = elim (Bool-cases (leb desired count)) [
    | inl e ↦
        rw (lease_condition, e)
          (
            (
              record { spec = refl; ready_replicas = refl },
              (set-Sets rt "LeaseReady" condition_true "Ready" "").1,
            ),
            inr (ground (arith, e)),
          )
    | inr e ↦
        rw (lease_condition, e)
          (
            (
              record { spec = refl; ready_replicas = refl },
              (set-Sets rt "LeaseReady" condition_false "LeaseNotFound" _).1,
            ),
            inl (
                Blocked-set_false api "LeaseReady" rt.status.conditions rt.generation
                  "LeaseNotFound" _),
          )
  ]

  pub update_status_leases-Leased :
      (listed : Outcome String (List Lease)) (rt after : LogicFlowRuntime)
      → update_status_leases api listed rt ≡ ok after
      → Leased listed rt after
  unfolding update_status_leases
  update_status_leases-Leased listed rt after h = elim (Option-cases rt.spec.persistence) [
    | inl e ↦
        let p : rt ≡ after = ground (arith, e, h) in
        subst (Leased listed rt) p
          ((record { spec = refl; ready_replicas = refl }, λ kind differs b. b), inl e)
    | inr (durable, e) ↦ elim (Outcome-cases listed) [
      | inr (message, f) ↦ absurd (ground (arith, e, f, h))
      | inl (leases, f) ↦
          let desired = effective_replicas rt.spec.application in
          let p : lease_condition api (length leases) desired rt ≡ after =
            ground (arith, e, f, h) in
          let (sets, known) = lease_condition-Counted (length leases) desired rt in
          subst (Leased listed rt) p
            (sets, inr (elim known [ inl b ↦ inl b | inr enough ↦ inr (leases, f, enough) ]))
    ]
  ]
