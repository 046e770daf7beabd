-- ===== src/Controller/Traffic.antt =====
-- internal/controller/logicflowservice_controller.go: the targets among which the traffic of a
-- LogicFlowService is split. `none` stands for an index that is out of range. A weight is the
-- 32-bit pattern of an int32.
pub mod Split
use logic_operator.Prelude.{
  ℕ, suc, ◌+◌, ◌-◌, ◌%◌, String, Bool, Option, none, some, List, [], ◌∷◌, length, get_elem?, ltb,
  if◌then◌else◌,
}
use logic_operator.Api.Definition.{LogicFlowDefinition, label_workflow_version}
use logic_operator.Api.Service.{LogicFlowService, TrafficSpec}
use logic_operator.Gateway.Catalog.Build.{label}

-- trafficTarget
pub record TrafficTarget : Type 0 where
  pub version : String
  pub weight : ℕ

-- `a < b` of two int32
abbrev pub signed_less : ℕ → ℕ → Bool
signed_less a b = ltb ((a + 2147483648) % 4294967296) ((b + 2147483648) % 4294967296)

-- The loop of splitTrafficTargets from the index `i`, with the index that leads and its weight
unfoldable pub primary_loop : ℕ → ℕ → ℕ → List TrafficSpec → ℕ
primary_loop i best weight [] = best
primary_loop i best weight (t ∷ traffic) =
    let leads = primary_loop (suc i) i t.weight traffic in
    let stays = primary_loop (suc i) best weight traffic in
    if signed_less weight t.weight then leads else stays

abbrev pub target_of : LogicFlowDefinition → TrafficSpec → TrafficTarget
target_of def t = record { version = label def label_workflow_version; weight = t.weight }

unfoldable pub target_at : List TrafficSpec → List LogicFlowDefinition → ℕ → Option TrafficTarget
target_at traffic defs i = elim (get_elem? defs i) [
  | none ↦ none
  | some def ↦ elim (get_elem? traffic i) [ none ↦ none | some t ↦ some (target_of def t) ]
]

abbrev pub primary_index : List TrafficSpec → ℕ
primary_index [] = 0
primary_index (t ∷ traffic) = primary_loop 0 0 t.weight (t ∷ traffic)

-- `1 - primaryIdx` is negative where the leader is behind the second entry.
unfoldable pub canary_target :
    List TrafficSpec → List LogicFlowDefinition → ℕ → Option TrafficTarget
unfolding target_at
canary_target traffic defs primary =
    if ltb 1 primary
    then none
    else if ltb (1 - primary) (length traffic)
    then target_at traffic defs (1 - primary)
    else some (record { version = ""; weight = 0 })

-- splitTrafficTargets: the primary and the canary
unfoldable pub split_traffic_targets :
    LogicFlowService → List LogicFlowDefinition → Option (TrafficTarget × TrafficTarget)
unfolding target_at primary_loop canary_target
split_traffic_targets svc defs =
    elim (target_at svc.spec.traffic defs (primary_index svc.spec.traffic)) [
      | none ↦ none
      | some primary ↦ elim (canary_target svc.spec.traffic defs (primary_index svc.spec.traffic)) [
        | none ↦ none
        | some canary ↦ some (primary, canary)
      ]
    ]

-- The loop of buildTrafficTargets
unfoldable pub targets_loop :
    List TrafficSpec → List LogicFlowDefinition → Option (List TrafficTarget)
targets_loop [] defs = some []
targets_loop (t ∷ traffic) [] = none
targets_loop (t ∷ traffic) (def ∷ defs) = elim (targets_loop traffic defs) [
  | none ↦ none
  | some targets ↦ some (target_of def t ∷ targets)
]

-- buildTrafficTargets
unfoldable pub build_traffic_targets :
    LogicFlowService → List LogicFlowDefinition → Option (List TrafficTarget)
unfolding targets_loop
build_traffic_targets svc defs = elim svc.spec.default_definition [
  | none ↦ targets_loop svc.spec.traffic defs
  | some name ↦ elim (get_elem? defs 0) [
    | none ↦ none
    | some def ↦ some (record { version = label def label_workflow_version; weight = 100 } ∷ [])
  ]
]
