-- ===== src/Gateway/DataIndex.antt =====
-- workflow-gateway/internal/dataindex/client.go. The HTTP exchange with the Data Index, from the
-- marshalled request to the decoded response, and the decoding of its data are parameters.
use logic_operator.Prelude.{
  String, ◌≡◌, ◌≢◌, ◌↔◌, Option, none, some, List, [], ◌∷◌, ◌++◌, Outcome, ok, err, text_Eq, ◌==◌,
  if◌then◌else◌, arith,
}
use logic_operator.Prelude.Assoc.{Assoc, get}
use logic_operator.Gateway.Platform.{PlatformStore, endpoint}

pub record WorkflowInstance : Type 0 where
  pub id : String
  pub namespace : String
  pub name : String
  pub version : String
  pub status : String

pub record InstanceFilter : Type 0 where
  pub namespace : String
  pub name : String
  pub version : String
  pub status : String

-- ErrEndpointNotDiscovered, ErrInstanceNotFound and the other errors
pub data ClientError : Type 0 where
  endpoint_not_discovered instance_not_found : ClientError
  upstream : String → ClientError

-- gqlRequest: the query and its variables
pub data GqlRequest : Type 0 where
  list_instances_query : Assoc String String → GqlRequest
  get_instance_query : String → GqlRequest

-- gqlResponse, decoded
pub record GqlResponse : Type 0 where
  pub payload : String
  pub errors : List String

abbrev pub Transport : Type 0
Transport = String → GqlRequest → Outcome String GqlResponse

-- post
unfoldable pub post : Transport → String → GqlRequest → Outcome ClientError GqlResponse
post transport address request = elim (transport address request) [
  | err message ↦ err (upstream message)
  | ok response ↦ elim response.errors [
    | [] ↦ ok response
    | message ∷ more ↦ err (upstream message)
  ]
]

-- resolveEndpoint
unfoldable pub resolve_endpoint : PlatformStore → Outcome ClientError String
unfolding endpoint
resolve_endpoint store = elim (endpoint store) [
  | none ↦ err endpoint_not_discovered
  | some url ↦ ok url
]

abbrev entry : String → String → Assoc String String
entry field value = if value == "" then [] else (field, value) ∷ []

-- buildFilter; `value` of a field stands for the object `{"eq": value}`.
unfoldable pub build_filter : InstanceFilter → Assoc String String
build_filter f =
    entry "namespace" f.namespace
    ++ (entry "name" f.name ++ (entry "version" f.version ++ entry "status" f.status))

-- ListInstances
unfoldable pub list_instances :
    Transport
    → (String → Outcome String (List WorkflowInstance))
    → PlatformStore
    → InstanceFilter
    → Outcome ClientError (List WorkflowInstance)
unfolding post resolve_endpoint build_filter
list_instances transport decode store filter = elim (resolve_endpoint store) [
  | err e ↦ err e
  | ok address ↦ elim (post transport address (list_instances_query (build_filter filter))) [
    | err e ↦ err e
    | ok response ↦ elim (decode response.payload) [
      | err message ↦ err (upstream message)
      | ok instances ↦ ok instances
    ]
  ]
]

-- GetInstance; the decoder answers `none` for a null instance.
unfoldable pub get_instance :
    Transport
    → (String → Outcome String (Option WorkflowInstance))
    → PlatformStore
    → String
    → Outcome ClientError WorkflowInstance
unfolding post resolve_endpoint
get_instance transport decode store id = elim (resolve_endpoint store) [
  | err e ↦ err e
  | ok address ↦ elim (post transport address (get_instance_query id)) [
    | err e ↦ err e
    | ok response ↦ elim (decode response.payload) [
      | err message ↦ err (upstream message)
      | ok none ↦ err instance_not_found
      | ok (some instance) ↦ ok instance
    ]
  ]
]

-- The filter that is sent has a field exactly when the caller gave it a value, and with that value.
pub get-build_filter :
    (f : InstanceFilter) (value : String)
    → ((get "namespace" (build_filter f) ≡ some value) ↔ ((f.namespace ≡ value) × (value ≢ "")))
      × ((get "name" (build_filter f) ≡ some value) ↔ ((f.name ≡ value) × (value ≢ "")))
      × ((get "version" (build_filter f) ≡ some value) ↔ ((f.version ≡ value) × (value ≢ "")))
      × ((get "status" (build_filter f) ≡ some value) ↔ ((f.status ≡ value) × (value ≢ "")))
unfolding build_filter get
get-build_filter f value = ground (
  arith,
  text_Eq.same_iff f.namespace "",
  text_Eq.same_iff f.name "",
  text_Eq.same_iff f.version "",
  text_Eq.same_iff f.status "",
  text_Eq.same_iff value "",
)
