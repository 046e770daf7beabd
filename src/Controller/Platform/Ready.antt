-- ===== src/Controller/Platform/Ready.antt =====
-- When updateLogicPlatformReadiness reports Ready and when it reports Failed.
use logic_operator.Prelude.{
  String, ◌≡◌, refl, ◌≢◌, ◌↔◌, inl, inr, Bool, true, false, Option, none, some, List, [], ◌∷◌,
  arith, Option-cases,
}
use logic_operator.Api.Conditions.{
  Condition, ConditionsApi, condition_true, condition_false, ready, find_condition, set_condition,
}
use logic_operator.Api.Conditions.Phase.{IsDeadline}
use logic_operator.Api.Conditions.Update.{find-set_condition}
use logic_operator.Api.Platform.{
  LogicPlatform, DataIndexStatus, ComponentStatus, VectorSpec, WorkflowGatewaySpec,
}
use logic_operator.Controller.Platform.{
  data_index_ready, component_ready, note_waiting, vector_enabled, gateway_enabled, not_ready,
  component_conditions, deadline_loop, settle, update_logic_platform_readiness,
}

-- A status of the component exists and says that it is ready.
abbrev pub DataIndexReady : Option DataIndexStatus → Type 0
DataIndexReady status = (s : DataIndexStatus) × (status ≡ some s) × (s.ready ≡ true)

abbrev pub ComponentReady : Option ComponentStatus → Type 0
ComponentReady status = (s : ComponentStatus) × (status ≡ some s) × (s.ready ≡ true)

-- Every component that the platform enables is ready.
pub record AllReady (plat : LogicPlatform) : Type 0 where
  pub data_index : plat.spec.data_index.enabled ≡ true → DataIndexReady plat.status.data_index
  pub vector :
      (v : VectorSpec)
      → plat.spec.data_index.vector ≡ some v
      → v.enabled ≡ true
      → ComponentReady plat.status.vector
  pub gateway :
      (g : WorkflowGatewaySpec)
      → plat.spec.workflow_gateway ≡ some g
      → ComponentReady plat.status.workflow_gateway

note_waiting-none :
    (enabled is_ready : Bool) (name : String) (names : List String)
    → (note_waiting enabled is_ready name names ≡ [])
      ↔ ((names ≡ []) × (enabled ≡ true → is_ready ≡ true))
note_waiting-none false is_ready name names = (λ h. (h, λ e. cc), λ h. h.0)
note_waiting-none true true name names = (λ h. (h, λ e. refl), λ h. h.0)
note_waiting-none true false name [] = (λ h. cc, λ h. cc (h.1 refl))
note_waiting-none true false name (n ∷ names) = (λ h. cc, λ h. cc)

data_index_ready_iff :
    (status : Option DataIndexStatus) → (data_index_ready status ≡ true) ↔ DataIndexReady status
data_index_ready_iff none = (λ h. cc, λ (s, p, r). cc)
data_index_ready_iff (some status) = (λ h. (status, refl, h), λ (s, p, r). ground (arith, p, r))

component_ready_iff :
    (status : Option ComponentStatus) → (component_ready status ≡ true) ↔ ComponentReady status
component_ready_iff none = (λ h. cc, λ (s, p, r). cc)
component_ready_iff (some status) = (λ h. (status, refl, h), λ (s, p, r). ground (arith, p, r))

-- Nothing waits exactly when every enabled component is ready.
not_ready_iff : (plat : LogicPlatform) → (not_ready plat ≡ []) ↔ AllReady plat
unfolding not_ready
not_ready_iff plat =
    let first = data_index_ready plat.status.data_index in
    let second = component_ready plat.status.vector in
    let third = component_ready plat.status.workflow_gateway in
    let one = note_waiting plat.spec.data_index.enabled first "Data Index" [] in
    let two = note_waiting (vector_enabled plat) second "Vector" one in
    let a = note_waiting-none (gateway_enabled plat) third "Workflow Gateway" two in
    let b = note_waiting-none (vector_enabled plat) second "Vector" one in
    let c = note_waiting-none plat.spec.data_index.enabled first "Data Index" [] in
    let d = data_index_ready_iff plat.status.data_index in
    let e = component_ready_iff plat.status.vector in
    let f = component_ready_iff plat.status.workflow_gateway in
    (
      λ h. record {
        data_index = λ on. d.0 ((c.0 (b.0 (a.0 h).0).0).1 on);
        vector = λ v p on. e.0 ((b.0 (a.0 h).0).1 (ground (arith, p, on)));
        gateway = λ g p. f.0 ((a.0 h).1 (ground (arith, p)));
      },
      λ all. a.1 (
        b.1 (
          c.1 (refl, λ on. d.1 (all.data_index on)),
          λ on. elim (Option-cases plat.spec.data_index.vector) [
            | inl p ↦ ground (arith, p, on)
            | inr (v, p) ↦ e.1 (all.vector v p (ground (arith, p, on)))
          ],
        ),
        λ on. elim (Option-cases plat.spec.workflow_gateway) [
          | inl p ↦ ground (arith, p, on)
          | inr (g, p) ↦ f.1 (all.gateway g p)
        ],
      ),
    )

-- The condition of the type says that a deployment missed its deadline.
abbrev pub Late : ConditionsApi → List Condition → String → Type 0
Late api conditions kind =
    (c : Condition) × (find_condition api conditions kind ≡ some c) × IsDeadline c

module _ (api : ConditionsApi) where
  deadline_loop_waits :
      (conditions : List Condition) (kinds : List String)
      → (deadline_loop api conditions kinds).0 ≢ ready
  unfolding deadline_loop
  deadline_loop_waits conditions [] h = cc
  deadline_loop_waits conditions (k ∷ kinds) h =
      ground (arith, deadline_loop_waits conditions kinds)

  settle_phase :
      (plat : LogicPlatform) (names : List String)
      → ((settle api plat names).status.phase ≡ ready) ↔ (names ≡ [])
  settle_phase plat [] = (λ h. refl, λ h. refl)
  settle_phase plat (name ∷ names) =
      (λ h. absurd (deadline_loop_waits plat.status.conditions component_conditions h), λ h. cc)

  settle_condition :
      (plat : LogicPlatform) (names : List String)
      → (c : Condition) × (find_condition api (settle api plat names).status.conditions "Ready"
          ≡ some c)
        × (c.observed_generation ≡ plat.generation)
        × ((c.status ≡ condition_true) ↔ (names ≡ []))
  unfolding set_condition
  settle_condition plat [] = (
    _,
    find-set_condition api plat.status.conditions "Ready" "Ready" condition_true _ _ _,
    refl,
    (λ h. refl, λ h. refl),
  )
  settle_condition plat (name ∷ names) = (
    _,
    find-set_condition api plat.status.conditions "Ready" "Ready" condition_false _ _ _,
    refl,
    (λ h. cc, λ h. cc),
  )

  -- updateLogicPlatformReadiness sets the phase Ready exactly when every component that the platform
  -- enables has a status that is ready. The condition Ready is then there for the platform's
  -- generation, and is True in just this case.
  pub update_logic_platform_readiness_iff :
      (plat : LogicPlatform)
      → (((update_logic_platform_readiness api plat).status.phase ≡ ready) ↔ AllReady plat)
        × ((c : Condition) × (find_condition api
                (update_logic_platform_readiness api plat).status.conditions
                "Ready"
              ≡ some c)
            × (c.observed_generation ≡ plat.generation)
            × ((c.status ≡ condition_true) ↔ AllReady plat))
  unfolding update_logic_platform_readiness
  update_logic_platform_readiness_iff plat =
      let (enough, needed) = not_ready_iff plat in
      let (there, back) = settle_phase plat (not_ready plat) in
      let (c, found, current, (on, off)) = settle_condition plat (not_ready plat) in
      (
        (λ h. enough (there h), λ all. back (needed all)),
        (c, found, current, (λ h. enough (on h), λ all. off (needed all))),
      )
