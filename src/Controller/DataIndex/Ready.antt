-- ===== src/Controller/DataIndex/Ready.antt =====
-- When the Data Index is reported ready.
use mathlib.Core.Path.{subst}
use logic_operator.Prelude.{
  ℕ, String, ◌≡◌, Bool, refl, true, false, some, List, [], ◌∷◌, ok, arith, bind_ok, All,
  Option-cases, text_Eq, ◌==◌, inl, inr,
}
use logic_operator.Api.Conditions.{
  Condition, ConditionsApi, Status, condition_true, find_condition, set_condition,
}
use logic_operator.Api.Conditions.Update.{find-set_condition}
use logic_operator.Api.Platform.{LogicPlatform, DataIndexStatus}
use logic_operator.Controller.Platform.{platform_component_readiness}
use logic_operator.Controller.Status.Ready.{Status-cases}
use logic_operator.Controller.DataIndex.{
  DataIndexServer, Seen, set_data_index_ready, status_of, finished, observe_data_index,
  observe_parts, update_data_index_status,
}

abbrev parts : List String
parts = "DataIndexDeploymentAvailable" ∷ "DataIndexServiceReady" ∷ "DataIndexPersistenceReady" ∷ []

abbrev pub reported : List String
reported =
    "DataIndexDeploymentAvailable" ∷ "DataIndexServiceReady" ∷ "DataIndexPersistenceReady"
    ∷ "DataIndexReady" ∷ []

module _ (api : ConditionsApi) where
  -- The condition of the type is there and True.
  abbrev pub IsTrue : List Condition → String → Type 0
  IsTrue conditions kind =
      (c : Condition) × (find_condition api conditions kind ≡ some c) × (c.status ≡ condition_true)

  readiness_step :
      (conditions : List Condition) (kind : String) (kinds : List String)
      → (platform_component_readiness api conditions (kind ∷ kinds)).0 ≡ true
      → IsTrue conditions kind × ((platform_component_readiness api conditions kinds).0 ≡ true)
  unfolding platform_component_readiness
  readiness_step conditions kind kinds h =
      elim (Option-cases (find_condition api conditions kind)) [
        | inl p ↦ ground (arith, p, h)
        | inr (c, p) ↦ elim (Status-cases c.status) [
          | inl t ↦ ((c, p, t), ground (arith, p, t, h))
          | inr (inl t) ↦ ground (arith, p, t, h)
          | inr (inr t) ↦ ground (arith, p, t, h)
        ]
      ]

  platform_component_readiness-IsTrue :
      (conditions : List Condition) (kinds : List String)
      → (platform_component_readiness api conditions kinds).0 ≡ true
      → All (IsTrue conditions) kinds
  platform_component_readiness-IsTrue conditions [] h = tt
  platform_component_readiness-IsTrue conditions (kind ∷ kinds) h =
      let (here, rest) = readiness_step conditions kind kinds h in
      (here, platform_component_readiness-IsTrue conditions kinds rest)

  kept :
      (seen : Seen) (kind reason message : String) (status : Status) (generation : ℕ)
      → ("DataIndexReady" == kind) ≡ false
      → IsTrue seen.1 kind
      → IsTrue (set_condition api seen.1 "DataIndexReady" status generation reason message) kind
  kept seen kind reason message status generation differs (c, found, holds) =
      (c, rw (find-set_condition api, differs) found, holds)

  ready_set :
      (seen : Seen) (reason message : String) (is_ready : Bool) (generation : ℕ)
      → is_ready ≡ true
      → IsTrue
          (set_condition api seen.1 "DataIndexReady" (status_of is_ready) generation reason message)
          "DataIndexReady"
  ready_set seen reason message is_ready generation h = (
    _,
    find-set_condition api seen.1 "DataIndexReady" "DataIndexReady" (status_of is_ready) generation
        reason message,
    rw h refl,
  )

  module _ (generation : ℕ) (server : DataIndexServer) where
    set_data_index_ready-IsTrue :
        (seen : Seen)
        → (set_data_index_ready api generation server seen).0.ready ≡ true
        → All (IsTrue (set_data_index_ready api generation server seen).1) reported
    unfolding set_data_index_ready
    set_data_index_ready-IsTrue seen h =
        let all = platform_component_readiness-IsTrue seen.1 parts h in
        let (c, found, holds) = ready_set seen _ _ _ generation h in
        (
          kept seen "DataIndexDeploymentAvailable" _ _ _ generation refl all.0,
          (
            kept seen "DataIndexServiceReady" _ _ _ generation refl all.1.0,
            (
              kept seen "DataIndexPersistenceReady" _ _ _ generation refl all.1.1.0,
              ((c, found, holds), tt),
            ),
          ),
        )

    observe_data_index-set_data_index_ready :
        (plat : LogicPlatform) (seen : Seen)
        → observe_data_index api generation server plat ≡ ok seen
        → (before : Seen) × (set_data_index_ready api generation server before ≡ seen)
    unfolding observe_data_index
    observe_data_index-set_data_index_ready plat seen h =
        let (before, _, r) =
          bind_ok (observe_parts api generation server plat)
            (λ parts. ok (set_data_index_ready api generation server parts)) seen h in
        (before, ground (arith, r))

  -- When updateDataIndexStatus of a platform that enables the Data Index reports that it is ready,
  -- the conditions of its Deployment, its Service, its persistence and the Data Index itself are
  -- there and True.
  pub update_data_index_status-IsTrue :
      (server : DataIndexServer) (plat after : LogicPlatform) (status : DataIndexStatus)
      → plat.spec.data_index.enabled ≡ true
      → update_data_index_status api server plat ≡ ok after
      → after.status.data_index ≡ some status
      → status.ready ≡ true
      → All (IsTrue after.status.conditions) reported
  unfolding update_data_index_status
  update_data_index_status-IsTrue server plat after status on h found is_ready =
      let (seen, h1, r1) =
        bind_ok (observe_data_index api plat.generation server plat) (finished plat) after
          (ground (arith, on, h)) in
      let (before, p) =
        observe_data_index-set_data_index_ready plat.generation server plat seen h1 in
      let e : finished plat seen ≡ ok after = r1 in
      let same : seen.1 ≡ after.status.conditions = ground (arith, r1) in
      let same_status : seen.0 ≡ status = ground (arith, r1, found) in
      subst (λ (cs : List Condition). All (IsTrue cs) reported) same
        (subst (λ (s : Seen). All (IsTrue s.1) reported) p
          (set_data_index_ready-IsTrue plat.generation server before
            (ground (arith, p, same_status, is_ready))))
