-- ===== src/Controller/Platform.antt =====
-- LogicPlatformReconciler of internal/controller/logicplatform_controller.go, over the interface
-- PlatformComponent of platform_component.go. The state of the cluster is `W`; what the API server
-- answers is the parameter `server`. `RetryOnConflict` belongs to `write_status`.
pub mod Ready
pub mod Phases
use logic_operator.Prelude.{
  String, Bool, true, false, Option, none, some, List, [], ◌∷◌, ◌++◌, map, Outcome, ok, err, ◌&&◌,
  ◌||◌, text_Eq, ◌==◌, if◌then◌else◌, keep_if, not,
}
use logic_operator.Prelude.Text.{sprintf, join}
use logic_operator.Api.Client.{GetError, not_found, other_error}
use logic_operator.Api.Conditions.{
  Condition, ConditionsApi, Status, condition_true, condition_false, condition_unknown, is_false,
  ApplicationPhase, pending, ready, failed, set_condition, find_condition,
}
use logic_operator.Api.Platform.{LogicPlatform, DataIndexStatus, ComponentStatus}
use logic_operator.Admission.Platform.{Versions, apply_logic_platform_defaults}
use logic_operator.Controller.Objects.{Owner}

-- The status that a component leaves, and its error if it has one
pub record Ran (W : Type 0) : Type 0 where
  pub world : W
  pub plat : LogicPlatform
  pub error : Option String

-- PlatformComponent: `update_status` must not call the API.
pub record PlatformComponent (W : Type 0) : Type 0 where
  pub name : String
  pub reconcile : W → LogicPlatform → Ran W
  pub update_status : W → LogicPlatform → LogicPlatform × Option String

pub record PlatformServer (W : Type 0) : Type 0 where
  pub get_platform : W → String → String → Outcome GetError LogicPlatform
  pub write_status : W → LogicPlatform → W × Option String

abbrev pub data_index_ready : Option DataIndexStatus → Bool
data_index_ready none = false
data_index_ready (some status) = status.ready

abbrev pub component_ready : Option ComponentStatus → Bool
component_ready none = false
component_ready (some status) = status.ready

-- One component of updateLogicPlatformReadiness: its name is appended if it is enabled and waits.
abbrev pub note_waiting : Bool → Bool → String → List String → List String
note_waiting enabled is_ready name names =
    if enabled then (if is_ready then names else names ++ (name ∷ [])) else names

abbrev pub vector_enabled : LogicPlatform → Bool
vector_enabled plat = elim plat.spec.data_index.vector [ none ↦ false | some v ↦ v.enabled ]

abbrev pub gateway_enabled : LogicPlatform → Bool
gateway_enabled plat = elim plat.spec.workflow_gateway [ none ↦ false | some _ ↦ true ]

-- The names of the components that are enabled and not ready
unfoldable pub not_ready : LogicPlatform → List String
not_ready plat =
    note_waiting (gateway_enabled plat) (component_ready plat.status.workflow_gateway)
      "Workflow Gateway"
      (note_waiting (vector_enabled plat) (component_ready plat.status.vector) "Vector" (
        note_waiting plat.spec.data_index.enabled (data_index_ready plat.status.data_index)
          "Data Index" []))

-- Whether the count of enabled components is not 0
abbrev pub any_enabled : LogicPlatform → Bool
any_enabled plat = plat.spec.data_index.enabled || (vector_enabled plat || gateway_enabled plat)

abbrev pub component_conditions : List String
component_conditions =
    "DataIndexDeploymentAvailable" ∷ "DataIndexServiceReady" ∷ "DataIndexPersistenceReady"
    ∷ "VectorReady" ∷ "WorkflowGatewayReady" ∷ []

abbrev pub is_deadline : Option Condition → Bool
is_deadline none = false
is_deadline (some c) = is_false c.status && c.reason == "ProgressDeadlineExceeded"

module _ (api : ConditionsApi) where
  -- platformComponentReadiness
  unfoldable pub platform_component_readiness :
      List Condition → List String → Bool × String × String
  unfolding find_condition sprintf
  platform_component_readiness conditions [] = (true, "Ready", "")
  platform_component_readiness conditions (kind ∷ kinds) =
      let rest = platform_component_readiness conditions kinds in
      elim (find_condition api conditions kind) [
        | none ↦ (false, "ComponentsNotReady", sprintf (kind ∷ " condition is not available" ∷ []))
        | some c ↦
            let reason = if c.reason == "" then "ComponentsNotReady" else c.reason in
            elim c.status [
              | condition_true ↦ rest
              | condition_false ↦ (false, reason, c.message)
              | condition_unknown ↦ (false, reason, c.message)
            ]
      ]

  -- The loop of updateLogicPlatformReadiness over the conditions of the components
  unfoldable pub deadline_loop : List Condition → List String → ApplicationPhase × String
  unfolding find_condition
  deadline_loop conditions [] = (pending, "ComponentsNotReady")
  deadline_loop conditions (kind ∷ kinds) =
      let rest = deadline_loop conditions kinds in
      if is_deadline (find_condition api conditions kind)
      then (failed, "ProgressDeadlineExceeded")
      else rest

  abbrev pub put_ready : LogicPlatform → ApplicationPhase → Status → String → String → LogicPlatform
  put_ready plat phase status reason message = record plat {
    status = record plat.status {
      phase = phase;
      conditions =
          set_condition api plat.status.conditions "Ready" status plat.generation reason message;
    };
  }

  -- What updateLogicPlatformReadiness does with the names that wait
  abbrev pub settle : LogicPlatform → List String → LogicPlatform
  settle plat [] = put_ready plat ready condition_true "Ready" (
      if any_enabled plat
      then "All enabled platform components are ready"
      else "No platform components are enabled")
  settle plat (name ∷ names) =
      let (phase, reason) = deadline_loop plat.status.conditions component_conditions in
      put_ready plat phase condition_false reason
        (sprintf ("Waiting for enabled platform components: " ∷ join ", " (name ∷ names) ∷ []))

  -- updateLogicPlatformReadiness
  unfoldable pub update_logic_platform_readiness : LogicPlatform → LogicPlatform
  unfolding not_ready deadline_loop set_condition sprintf join
  update_logic_platform_readiness plat = settle plat (not_ready plat)

  module _ {W : Type 0} (server : PlatformServer W) where
    -- writeStatus
    unfoldable pub write_status : W → LogicPlatform → W × Option String
    unfolding update_logic_platform_readiness
    write_status w plat = server.write_status w (
        update_logic_platform_readiness
          (record plat { status = record plat.status { observed_generation = plat.generation } }))

    abbrev pub note_error : String → Option String → List String → List String
    note_error prefix none errors = errors
    note_error prefix (some message) errors =
        errors ++ (sprintf (prefix ∷ ": " ∷ message ∷ []) ∷ [])

    -- Phase 1 of `Reconcile`, from the errors so far
    unfoldable pub reconcile_components :
        List (PlatformComponent W)
        → W
        → LogicPlatform
        → List String
        → W × LogicPlatform × List String
    unfolding sprintf
    reconcile_components [] w plat errors = (w, plat, errors)
    reconcile_components (c ∷ components) w plat errors =
        let ran = c.reconcile w plat in
        reconcile_components components ran.world ran.plat (note_error c.name ran.error errors)

    -- Phase 2
    unfoldable pub update_statuses :
        List (PlatformComponent W) → W → LogicPlatform → List String → LogicPlatform × List String
    unfolding sprintf
    update_statuses [] w plat errors = (plat, errors)
    update_statuses (c ∷ components) w plat errors =
        let (seen, error) = c.update_status w plat in
        update_statuses components w seen
          (note_error (sprintf (c.name ∷ " status" ∷ [])) error errors)

    -- Phase 3
    unfoldable pub write_accumulated : W → LogicPlatform → List String → W × List String
    unfolding write_status
    write_accumulated w plat errors =
        let (written, error) = write_status w plat in
        (written, elim error [ none ↦ errors | some message ↦ errors ++ (message ∷ []) ])

    -- Phases 2 and 3
    unfoldable pub observe :
        List (PlatformComponent W) → W → LogicPlatform → List String → W × List String
    unfolding update_statuses write_accumulated
    observe components w plat errors =
        let (seen, noted) = update_statuses components w plat errors in
        write_accumulated w seen noted

    -- The three phases; `errors.Join` is nil when no error is joined.
    unfoldable pub reconcile_phases :
        List (PlatformComponent W) → W → LogicPlatform → W × List String
    unfolding reconcile_components observe
    reconcile_phases components w plat =
        let (after, reconciled, errors) = reconcile_components components w plat [] in
        observe components after reconciled errors

    -- Reconcile, with the errors that it joins
    unfoldable pub reconcile_platform :
        Versions → List (PlatformComponent W) → String → String → W → W × List String
    unfolding reconcile_phases apply_logic_platform_defaults
    reconcile_platform versions components namespace name w =
        elim (server.get_platform w namespace name) [
          | err not_found ↦ (w, [])
          | err (other_error message) ↦ (w, message ∷ [])
          | ok found ↦ reconcile_phases components w (apply_logic_platform_defaults versions found)
        ]

abbrev has_kind : String → List String → Bool
has_kind kind [] = false
has_kind kind (k ∷ kinds) = k == kind || has_kind kind kinds

-- removeLogicPlatformCondition
unfoldable pub remove_logic_platform_condition : List Condition → List String → List Condition
remove_logic_platform_condition conditions kinds =
    keep_if (λ (c : Condition). not (has_kind c.kind kinds)) conditions

-- hasOwner, by the owner references of the object
unfoldable pub has_owner : List Owner → LogicPlatform → Bool
has_owner [] plat = false
has_owner (ref ∷ refs) plat = ref.uid == plat.uid || has_owner refs plat
