-- ===== src/Gateway/Definitions.antt =====
-- workflow-gateway/internal/definitions/reader.go. The informer cache's list and the API server's
-- get are parameters.
use logic_operator.Prelude.{String, Option, none, some, List, [], ◌∷◌, Outcome, ok, err, text_Eq}
use logic_operator.Prelude.Assoc.{Assoc}
use logic_operator.Api.Definition.{LogicFlowDefinition, label_workflow_version, label_workflow_name}

pub data ReadError : Type 0 where
  definition_not_found : ReadError
  api_error : String → ReadError

-- The readers of a `Reader`: list by a namespace and labels, get by namespace and name.
pub record Readers : Type 0 where
  pub list : String → Assoc String String → Outcome String (List LogicFlowDefinition)
  pub fetch : String → String → Outcome String LogicFlowDefinition

-- FetchDefinition; `none` is a reader with a nil cache or a nil API reader.
unfoldable pub fetch_definition :
    Option Readers → String → String → String → Outcome ReadError LogicFlowDefinition
fetch_definition none namespace name version = err definition_not_found
fetch_definition (some r) namespace name version =
    elim (r.list namespace
      ((label_workflow_version, version) ∷ ((label_workflow_name, name) ∷ []))) [
        | err message ↦ err (api_error message)
        | ok [] ↦ err definition_not_found
        | ok (def ∷ more) ↦ elim (r.fetch def.namespace def.name) [
          | err message ↦ err (api_error message)
          | ok full ↦ ok full
        ]
      ]
