-- ===== src/Gateway/Platform.antt =====
-- workflow-gateway/internal/platform: the store of the Data Index endpoint and the watcher that
-- keeps it. The locks of the store make each method one step.
pub mod Trace
use logic_operator.Prelude.{
  String, Bool, true, false, Option, none, some, List, [], ◌∷◌, Outcome, ok, err, text_Eq, ◌==◌,
  if◌then◌else◌,
}
use logic_operator.Api.Platform.{LogicPlatform}

-- PlatformStore
pub record PlatformStore : Type 0 where
  pub endpoint : String
  pub set : Bool

-- NewPlatformStore
abbrev pub new_platform_store : PlatformStore
new_platform_store = record { endpoint = ""; set = false }

-- SetEndpoint
unfoldable pub set_endpoint : PlatformStore → String → PlatformStore
set_endpoint s url = record s { endpoint = url; set = true }

-- ClearEndpoint
unfoldable pub clear_endpoint : PlatformStore → PlatformStore
clear_endpoint s = record s { endpoint = ""; set = false }

-- Endpoint, its second result as the option
unfoldable pub endpoint : PlatformStore → Option String
endpoint s = if s.set then some s.endpoint else none

-- dataIndexEndpoint of a platform that is not nil
unfoldable pub data_index_endpoint : LogicPlatform → String
data_index_endpoint p = elim p.status.data_index [ none ↦ "" | some d ↦ d.service.graphql_endpoint ]

-- syncEndpoint of a LogicPlatform, by the watcher of `namespace`
unfoldable pub sync_endpoint : String → PlatformStore → LogicPlatform → PlatformStore
unfolding set_endpoint clear_endpoint data_index_endpoint
sync_endpoint namespace s p =
    if p.namespace == namespace
    then (if data_index_endpoint p == ""
        then clear_endpoint s
        else set_endpoint s (data_index_endpoint p))
    else s

unfoldable pub first_endpoint : PlatformStore → List LogicPlatform → PlatformStore
unfolding set_endpoint clear_endpoint data_index_endpoint
first_endpoint s [] = clear_endpoint s
first_endpoint s (p ∷ platforms) =
    if data_index_endpoint p == ""
    then first_endpoint s platforms
    else set_endpoint s (data_index_endpoint p)

-- doSync; the argument is what the cache lists for the namespace of the watcher.
unfoldable pub do_sync : PlatformStore → Outcome String (List LogicPlatform) → PlatformStore
unfolding first_endpoint
do_sync s (err e) = s
do_sync s (ok platforms) = first_endpoint s platforms

-- What the informer of all namespaces tells the handlers, and the sync of `Start` with what the
-- cache lists for the namespace of the watcher. `Start` syncs once, at any place among the others.
pub data Event : Type 0 where
  added updated deleted : LogicPlatform → Event
  synced : Outcome String (List LogicPlatform) → Event

-- The three handlers and the sync of `Start`
unfoldable pub handle : String → PlatformStore → Event → PlatformStore
unfolding sync_endpoint clear_endpoint do_sync
handle namespace s (added p) = sync_endpoint namespace s p
handle namespace s (updated p) = sync_endpoint namespace s p
handle namespace s (deleted p) = clear_endpoint s
handle namespace s (synced listed) = do_sync s listed

unfoldable pub handle_all : String → PlatformStore → List Event → PlatformStore
handle_all namespace s [] = s
handle_all namespace s (e ∷ events) = handle_all namespace (handle namespace s e) events
