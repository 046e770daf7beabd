-- ===== src/Examples/Platforms.antt =====
-- The theorems on the platform watcher, at work.
use logic_operator.Prelude.{String, ◌≡◌, refl, some, none, List, [], ◌∷◌, ◌++◌, true, ok}
use logic_operator.Api.Application.{ApplicationSpec}
use logic_operator.Api.Container.{no_container, no_pod}
use logic_operator.Api.Conditions.{pending}
use logic_operator.Api.Platform.{LogicPlatform, DataIndexServiceStatus}
use logic_operator.Gateway.Platform.{
  Event, added, updated, deleted, synced, endpoint, handle, handle_all, new_platform_store,
}
use logic_operator.Gateway.Platform.Trace.{IsSeen, endpoint-IsSeen, endpoint-deleted}

abbrev pub application : ApplicationSpec
application = record {
  image = "";
  replicas = none;
  resources = record { requests = none; limits = none };
  image_pull_policy = "";
  pod_template = record {
    metadata = none;
    container = no_container;
    pod = no_pod;
    replicas = none;
  };
  container = no_container;
}

abbrev pub empty_service : DataIndexServiceStatus
empty_service = record {
  deployment_ref = "";
  service_ref = "";
  replicas = record { desired = 0; current = 0; ready = 0; updated = 0 };
  graphql_endpoint = "";
  metrics_endpoint = "";
  url = "";
}

abbrev pub platform : String → String → LogicPlatform
platform namespace address = record {
  name = "platform";
  namespace = namespace;
  uid = "u3";
  generation = 1;
  spec = record {
    data_index = record {
      enabled = true;
      application = application;
      persistence = none;
      vector = none;
      ingress = none;
    };
    workflow_gateway = none;
  };
  status = record {
    observed_generation = 1;
    data_index = some (record {
      ready = true;
      service = record empty_service { graphql_endpoint = address };
      persistence = none;
    });
    vector = none;
    workflow_gateway = none;
    conditions = [];
    phase = pending;
  };
}

abbrev shop_platform : LogicPlatform
shop_platform = platform "shop" "http://dataindex"

abbrev history : List Event
history =
    added (platform "other" "http://elsewhere")
    ∷ added shop_platform
    ∷ synced (ok (shop_platform ∷ []))
    ∷ []

known : endpoint (handle_all "shop" new_platform_store history) ≡ some "http://dataindex"
unfolding endpoint handle_all handle
known = refl

endpoint-IsSeen_example : IsSeen "shop" history "http://dataindex"
endpoint-IsSeen_example =
    endpoint-IsSeen "shop" history "http://dataindex" (tt, (tt, ((refl, tt), tt))) known

forgotten :
    endpoint (
      handle_all "shop" new_platform_store
        (history ++ (deleted (platform "other" "http://elsewhere") ∷ [])))
    ≡ none
unfolding endpoint handle_all handle
forgotten = refl

known_again :
    endpoint (
      handle_all "shop" new_platform_store
        (history ++ (deleted (platform "other" "http://elsewhere") ∷ (updated shop_platform ∷ []))))
    ≡ some "http://dataindex"
unfolding endpoint handle_all handle
known_again = refl

endpoint-deleted_example : IsSeen "shop" (updated shop_platform ∷ []) "http://dataindex"
endpoint-deleted_example =
    endpoint-deleted "shop" history (updated shop_platform ∷ [])
      (platform "other" "http://elsewhere") "http://dataindex" (tt, tt) known_again
