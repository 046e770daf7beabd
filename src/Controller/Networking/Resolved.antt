-- ===== src/Controller/Networking/Resolved.antt =====
-- The definitions that the reconciler of services resolves are as many as it looks up.
use logic_operator.Prelude.{
  ◌≤◌, ◌<◌, String, ◌≡◌, refl, ◌≢◌, ◌⊎◌, inl, inr, true, none, List, [], ◌∷◌, length, Outcome, ok,
  err, text_Eq, is_some, arith, Option-cases, Outcome-cases,
}
use logic_operator.Api.Client.{GetError}
use logic_operator.Api.Definition.{LogicFlowDefinition, label_workflow_name}
use logic_operator.Api.Service.{LogicFlowService, TrafficSpec}
use logic_operator.Gateway.Catalog.Build.{label}
use logic_operator.Admission.Service.{has_default}
use logic_operator.Controller.Traffic.{
  split_traffic_targets, build_traffic_targets, targets_loop, target_at, primary_loop,
  canary_target,
}
use logic_operator.Controller.Service.{
  Fault, panic, resolve_definitions, definitions_loop, default_name,
}

split_one :
    (svc : LogicFlowService) (t : TrafficSpec) (d : LogicFlowDefinition)
    → svc.spec.traffic ≡ t ∷ []
    → is_some (split_traffic_targets svc (d ∷ [])) ≡ true
unfolding split_traffic_targets target_at primary_loop canary_target
split_one svc t d p = ground (arith, p)

split_two :
    (svc : LogicFlowService) (t u : TrafficSpec) (d e : LogicFlowDefinition)
    → svc.spec.traffic ≡ t ∷ u ∷ []
    → is_some (split_traffic_targets svc (d ∷ e ∷ [])) ≡ true
unfolding split_traffic_targets target_at primary_loop canary_target
split_two svc t u d e p = ground (arith, p)

targets_total :
    (traffic : List TrafficSpec) (defs : List LogicFlowDefinition)
    → length defs ≡ length traffic
    → is_some (targets_loop traffic defs) ≡ true
unfolding targets_loop
targets_total [] defs h = refl
targets_total (t ∷ traffic) [] h = absurd (omega (arith, h))
targets_total (t ∷ traffic) (d ∷ defs) h =
    ground (arith, targets_total traffic defs (omega (arith, h)))

loop_length :
    (get_def : String → Outcome GetError LogicFlowDefinition) (workflow runtime : String)
    (traffic : List TrafficSpec) (defs : List LogicFlowDefinition)
    → definitions_loop get_def workflow runtime traffic ≡ ok defs
    → length defs ≡ length traffic
unfolding definitions_loop
loop_length get_def workflow runtime [] defs h = ground (arith, h)
loop_length get_def workflow runtime (t ∷ traffic) defs h =
    elim (Outcome-cases (get_def t.definition_ref)) [
      | inr (e, f) ↦ absurd (ground (arith, f, h))
      | inl (d, f) ↦
          elim (Outcome-cases
            (definitions_loop get_def (label d label_workflow_name) d.spec.runtime_ref traffic)) [
              | inr (e, g) ↦ absurd (ground (arith, f, g, h))
              | inl (ds, g) ↦
                  let same =
                    loop_length get_def (label d label_workflow_name) d.spec.runtime_ref traffic ds
                      g in
                  let p : d ∷ ds ≡ defs = ground (arith, f, g, h) in rw⁻¹ p (omega (arith, same))
            ]
    ]

loop_fault :
    (get_def : String → Outcome GetError LogicFlowDefinition) (workflow runtime : String)
    (traffic : List TrafficSpec) (fault : Fault)
    → definitions_loop get_def workflow runtime traffic ≡ err fault
    → fault ≢ panic
unfolding definitions_loop
loop_fault get_def workflow runtime [] fault h p = ground (arith, h)
loop_fault get_def workflow runtime (t ∷ traffic) fault h p =
    elim (Outcome-cases (get_def t.definition_ref)) [
      | inr (e, f) ↦ ground (arith, f, h, p)
      | inl (d, f) ↦
          elim (Outcome-cases
            (definitions_loop get_def (label d label_workflow_name) d.spec.runtime_ref traffic)) [
              | inr (e, g) ↦
                  let known =
                    loop_fault get_def (label d label_workflow_name) d.spec.runtime_ref traffic e
                      g in
                  ground (arith, f, g, h, p, known)
              | inl (ds, g) ↦ ground (arith, f, g, h, p)
            ]
    ]

pub no_fault :
    (get_def : String → Outcome GetError LogicFlowDefinition) (svc : LogicFlowService)
    (fault : Fault)
    → resolve_definitions get_def svc ≡ err fault
    → fault ≢ panic
unfolding resolve_definitions
no_fault get_def svc fault h p = elim (Option-cases (default_name svc)) [
  | inl absent ↦ loop_fault get_def "" "" svc.spec.traffic fault (ground (arith, absent, h)) p
  | inr (name, there) ↦ elim (Outcome-cases (get_def name)) [
    | inr (e, f) ↦ ground (arith, there, f, h, p)
    | inl (d, f) ↦ ground (arith, there, f, h)
  ]
]

-- The definitions are as many as the code that follows looks up.
pub record IsResolved (svc : LogicFlowService) (defs : List LogicFlowDefinition) : Type 0 where
  pub first : LogicFlowDefinition
  pub others : List LogicFlowDefinition
  pub some_definition : defs ≡ first ∷ others
  pub traffic : svc.spec.default_definition ≡ none → length defs ≡ length svc.spec.traffic

-- The service names a default definition or has traffic.
abbrev pub Selects : LogicFlowService → Type 0
Selects svc = (svc.spec.traffic ≢ []) ⊎ (has_default svc ≡ true)

length_positive : (traffic : List TrafficSpec) → traffic ≢ [] → 0 < length traffic
length_positive [] h = absurd (h refl)
length_positive (t ∷ traffic) h = omega arith

head_of :
    (svc : LogicFlowService) (defs : List LogicFlowDefinition)
    → length defs ≡ length svc.spec.traffic
    → svc.spec.traffic ≢ []
    → IsResolved svc defs
head_of svc [] same filled = absurd (omega (arith, same, length_positive svc.spec.traffic filled))
head_of svc (d ∷ defs) same filled = record {
  first = d;
  others = defs;
  some_definition = refl;
  traffic = λ absent. same;
}

pub resolve_definitions-IsResolved :
    (get_def : String → Outcome GetError LogicFlowDefinition) (svc : LogicFlowService)
    (defs : List LogicFlowDefinition)
    → Selects svc
    → resolve_definitions get_def svc ≡ ok defs
    → IsResolved svc defs
unfolding resolve_definitions
resolve_definitions-IsResolved get_def svc defs selects h = elim (Option-cases (default_name svc)) [
  | inl absent ↦
      head_of svc defs (loop_length get_def "" "" svc.spec.traffic defs (ground (arith, absent, h)))
        (ground (arith, absent, selects))
  | inr (name, there) ↦ elim (Outcome-cases (get_def name)) [
    | inr (e, f) ↦ absurd (ground (arith, there, f, h))
    | inl (d, f) ↦ record {
      first = d;
      others = [];
      some_definition = ground (arith, there, f, h);
      traffic = λ absent. absurd (ground (arith, absent, there));
    }
  ]
]

pub split_lists :
    (svc : LogicFlowService) (traffic : List TrafficSpec) (defs : List LogicFlowDefinition)
    → svc.spec.traffic ≡ traffic
    → length defs ≡ length traffic
    → 0 < length defs
    → length traffic ≤ 2
    → is_some (split_traffic_targets svc defs) ≡ true
split_lists svc [] defs p same filled few = absurd (omega (arith, same, filled))
split_lists svc (t ∷ []) [] p same filled few = absurd (omega (arith, filled))
split_lists svc (t ∷ []) (d ∷ []) p same filled few = split_one svc t d p
split_lists svc (t ∷ []) (d ∷ e ∷ defs) p same filled few = absurd (omega (arith, same))
split_lists svc (t ∷ u ∷ []) [] p same filled few = absurd (omega (arith, filled))
split_lists svc (t ∷ u ∷ []) (d ∷ []) p same filled few = absurd (omega (arith, same))
split_lists svc (t ∷ u ∷ []) (d ∷ e ∷ []) p same filled few = split_two svc t u d e p
split_lists svc (t ∷ u ∷ []) (d ∷ e ∷ f ∷ defs) p same filled few = absurd (omega (arith, same))
split_lists svc (t ∷ u ∷ v ∷ traffic) defs p same filled few = absurd (omega (arith, few))

pub build_total :
    (svc : LogicFlowService) (d : LogicFlowDefinition) (defs : List LogicFlowDefinition)
    → (svc.spec.default_definition ≡ none → length (d ∷ defs) ≡ length svc.spec.traffic)
    → is_some (build_traffic_targets svc (d ∷ defs)) ≡ true
unfolding build_traffic_targets
build_total svc d defs h = elim (Option-cases svc.spec.default_definition) [
  | inl absent ↦ ground (arith, absent, targets_total svc.spec.traffic (d ∷ defs) (h absent))
  | inr (name, there) ↦ ground (arith, there)
]
