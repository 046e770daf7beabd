-- ===== src/Examples/Resources.antt =====
-- The theorems on conditions, at work.
use logic_operator.Prelude.{◌<◌, ◌≡◌, ◌≢◌, ◌↔◌, [], ◌∷◌, In, All, text_Eq}
use logic_operator.Api.Conditions.{
  Condition, condition_true, condition_false, derive_phase, failed, ready,
}
use logic_operator.Api.Conditions.Phase.{IsDeadline, derive_phase-failed, derive_phase-ready}

abbrev late : Condition
late = record {
  kind = "DeploymentAvailable";
  status = condition_false;
  observed_generation = 2;
  reason = "ProgressDeadlineExceeded";
  message = "deadline exceeded";
}

abbrev parsed : Condition
parsed = record {
  kind = "FlowParsed";
  status = condition_true;
  observed_generation = 2;
  reason = "ParseSuccess";
  message = "";
}

derive_phase-failed_example :
    (derive_phase (parsed ∷ late ∷ []) 3 ≡ failed)
    ↔ ((c : Condition) × In c (parsed ∷ late ∷ []) × IsDeadline c)
derive_phase-failed_example = derive_phase-failed (parsed ∷ late ∷ []) 3

derive_phase-ready_example :
    (derive_phase (parsed ∷ []) 1 ≡ ready)
    ↔ (All (λ (c : Condition). c.status ≢ condition_false) (parsed ∷ []) × (0 < 1))
derive_phase-ready_example = derive_phase-ready (parsed ∷ []) 1
