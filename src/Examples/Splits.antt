-- ===== src/Examples/Splits.antt =====
-- The theorems on the split of traffic, at work.
use logic_operator.Prelude.{
  String, Outcome, ok, ◌==◌, if◌then◌else◌, ◌≤◌, ◌<◌, ◌≡◌, refl, ◌⊎◌, none, some, List, [], ◌∷◌,
  arith, text_Eq,
}
use logic_operator.Api.Definition.{LogicFlowDefinition}
use logic_operator.Api.Service.{LogicFlowService, TrafficSpec}
use logic_operator.Controller.Traffic.{target_of, split_traffic_targets}
use logic_operator.Controller.Traffic.Split.{split_traffic_targets_two}
use logic_operator.Examples.Data.{def_of, service}
use logic_operator.Examples.Admissions.{fetch}

abbrev old_entry : TrafficSpec
old_entry = record { definition_ref = "order-v1"; weight = 20 }

abbrev new_entry : TrafficSpec
new_entry = record { definition_ref = "order-v2"; weight = 80 }

abbrev split_service : LogicFlowService
split_service = record service {
  spec = record service.spec { default_definition = none; traffic = old_entry ∷ new_entry ∷ [] };
}

low : 20 ≤ 100
low = omega arith

high : 80 ≤ 100
high = omega arith

split_traffic_targets_two_example :
    ((80 ≤ 20)
      × (split_traffic_targets split_service
            (def_of "order-v1" "1.0" ∷ def_of "order-v2" "2.0" ∷ [])
          ≡ some (
            target_of (def_of "order-v1" "1.0") old_entry,
            target_of (def_of "order-v2" "2.0") new_entry,
          )))
    ⊎ ((20 < 80)
        × (split_traffic_targets split_service
              (def_of "order-v1" "1.0" ∷ def_of "order-v2" "2.0" ∷ [])
            ≡ some (
              target_of (def_of "order-v2" "2.0") new_entry,
              target_of (def_of "order-v1" "1.0") old_entry,
            )))
split_traffic_targets_two_example =
    split_traffic_targets_two split_service old_entry new_entry (def_of "order-v1" "1.0")
      (def_of "order-v2" "2.0") refl low high

abbrev fetch_both : String → String → Outcome String LogicFlowDefinition
fetch_both namespace name =
    if name == "order-v2" then ok (def_of "order-v2" "2.0") else fetch namespace name

abbrev both : List LogicFlowDefinition
both = def_of "order-v1" "1.0" ∷ def_of "order-v2" "2.0" ∷ []
