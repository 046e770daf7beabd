-- ===== src/Api/Conditions.antt =====
-- api/v1/status_types.go: conditions, `SetCondition`, `FindCondition` and `DerivePhase`.
-- `meta.SetStatusCondition` and `meta.FindStatusCondition` of apimachinery are a parameter,
-- `ConditionsApi`. Transition times are left out.
pub mod Update
pub mod Phase
pub mod Reference
pub mod Blocks
use logic_operator.Prelude.{
  ℕ, String, ◌≡◌, Bool, Option, none, some, List, [], ◌∷◌, ◌++◌, ◌&&◌, Eq, text_Eq, number_Eq, ◌==◌,
  if◌then◌else◌, nat_eq, All,
}

-- metav1.ConditionStatus
pub data Status : Type 0 where
  condition_true condition_false condition_unknown : Status

abbrev pub is_false : Status → Bool
is_false condition_true = Bool.false
is_false condition_false = Bool.true
is_false condition_unknown = Bool.false

-- metav1.Condition
pub record Condition : Type 0 where
  pub kind : String
  pub status : Status
  pub observed_generation : ℕ
  pub reason : String
  pub message : String

-- No condition of the list has the type `kind`.
abbrev pub Lacks : String → List Condition → Type 0
Lacks kind = All (λ (c : Condition). (c.kind == kind) ≡ Bool.false)

-- What apimachinery documents: a condition that exists by its type is updated where it stands,
-- any other is appended; the first condition of a type is the one that is found.
pub record ConditionsApi : Type 0 where
  pub set_status_condition : List Condition → Condition → List Condition
  pub find_status_condition : List Condition → String → Option Condition
  pub set_existing :
      (before after : List Condition) (old new : Condition)
      → Lacks new.kind before
      → old.kind ≡ new.kind
      → set_status_condition (before ++ (old ∷ after)) new ≡ before ++ (new ∷ after)
  pub set_missing :
      (conditions : List Condition) (new : Condition)
      → Lacks new.kind conditions
      → set_status_condition conditions new ≡ conditions ++ (new ∷ [])
  pub find_existing :
      (before after : List Condition) (c : Condition)
      → Lacks c.kind before
      → find_status_condition (before ++ (c ∷ after)) c.kind ≡ some c
  pub find_missing :
      (conditions : List Condition) (kind : String)
      → Lacks kind conditions
      → find_status_condition conditions kind ≡ none

module _ (api : ConditionsApi) where
  -- SetCondition
  unfoldable pub set_condition :
      List Condition → String → Status → ℕ → String → String → List Condition
  set_condition conditions kind status generation reason message =
      api.set_status_condition conditions (record {
        kind = kind;
        status = status;
        observed_generation = generation;
        reason = reason;
        message = message;
      })

  -- SetConditionTrue, which leaves the message empty
  unfoldable pub set_condition_true : List Condition → String → ℕ → String → List Condition
  set_condition_true conditions kind generation reason =
      api.set_status_condition conditions (record {
        kind = kind;
        status = condition_true;
        observed_generation = generation;
        reason = reason;
        message = "";
      })

  -- FindCondition
  unfoldable pub find_condition : List Condition → String → Option Condition
  find_condition conditions kind = api.find_status_condition conditions kind

-- ApplicationPhase
pub data ApplicationPhase : Type 0 where
  pending ready failed : ApplicationPhase

-- The loop of `DerivePhase` from the phase that it has reached; `none` is its early return.
derive_phase_loop : ApplicationPhase → List Condition → Option ApplicationPhase
derive_phase_loop phase [] = some phase
derive_phase_loop phase (c ∷ conditions) =
    let stays = derive_phase_loop phase conditions in
    let waits = derive_phase_loop pending conditions in
    if is_false c.status
    then (if c.reason == "ProgressDeadlineExceeded" then none else waits)
    else stays

abbrev final_phase : Option ApplicationPhase → ℕ → ApplicationPhase
final_phase none ready_replicas = failed
final_phase (some ready) ready_replicas = if nat_eq ready_replicas 0 then pending else ready
final_phase (some phase) ready_replicas = phase

-- DerivePhase
unfoldable pub derive_phase : List Condition → ℕ → ApplicationPhase
unfolding derive_phase_loop
derive_phase conditions ready_replicas =
    final_phase (derive_phase_loop ready conditions) ready_replicas
