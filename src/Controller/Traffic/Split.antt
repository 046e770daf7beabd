-- ===== src/Controller/Traffic/Split.antt =====
-- The split of the traffic of an accepted LogicFlowService.
use logic_operator.Prelude.{
  ℕ, ◌+◌, ◌%◌, ◌≤◌, ◌<◌, String, ◌≡◌, ◌⊎◌, some, List, [], ◌∷◌, length, get_elem?, arith, none,
}
use logic_operator.Api.Definition.{LogicFlowDefinition, label_workflow_version}
use logic_operator.Gateway.Catalog.Build.{label}
use logic_operator.Api.Service.{LogicFlowService, TrafficSpec}
use logic_operator.Controller.Traffic.{
  TrafficTarget, target_of, split_traffic_targets, primary_loop, target_at, canary_target,
}

small : (a : ℕ) → a ≤ 100 → (a + 2147483648) % 4294967296 ≡ a + 2147483648
small a h = omega (arith, h)

-- Of two traffic entries with weights of at most 100, the one with the greater weight, or the first
-- if they are equal, becomes the primary and the other the canary, each with the version of its own
-- definition.
pub split_traffic_targets_two :
    (svc : LogicFlowService) (s t : TrafficSpec) (d e : LogicFlowDefinition)
    → svc.spec.traffic ≡ s ∷ (t ∷ [])
    → s.weight ≤ 100
    → t.weight ≤ 100
    → ((t.weight ≤ s.weight)
        × (split_traffic_targets svc (d ∷ (e ∷ [])) ≡ some (target_of d s, target_of e t)))
      ⊎ ((s.weight < t.weight)
          × (split_traffic_targets svc (d ∷ (e ∷ [])) ≡ some (target_of e t, target_of d s)))
unfolding split_traffic_targets primary_loop target_at canary_target
split_traffic_targets_two svc s t d e p low high =
    ground (arith, p, low, high, small s.weight low, small t.weight high)

-- The sum of the weights
abbrev pub targets_total : List TrafficTarget → ℕ
targets_total [] = 0
targets_total (t ∷ targets) = t.weight + targets_total targets

-- The targets that a LogicFlowService asks for: all traffic to the first definition if it has a
-- default definition, else each entry's weight to the version of the entry's definition, in order.
pub record IsSplit (svc : LogicFlowService) (defs : List LogicFlowDefinition)
    (targets : List TrafficTarget) : Type 0 where
  pub default :
      (name : String)
      → svc.spec.default_definition ≡ some name
      → (d : LogicFlowDefinition) × (get_elem? defs 0 ≡ some d)
        × (targets ≡ record { version = label d label_workflow_version; weight = 100 } ∷ [])
  pub same_length : svc.spec.default_definition ≡ none → length targets ≡ length svc.spec.traffic
  pub entry :
      (i : ℕ) (t : TrafficSpec) (d : LogicFlowDefinition)
      → svc.spec.default_definition ≡ none
      → get_elem? svc.spec.traffic i ≡ some t
      → get_elem? defs i ≡ some d
      → get_elem? targets i
        ≡ some (record { version = label d label_workflow_version; weight = t.weight })
  pub total : targets_total targets ≡ 100
