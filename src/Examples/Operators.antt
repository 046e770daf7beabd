-- ===== src/Examples/Operators.antt =====
-- The theorems on the status of a platform, at a platform whose Data Index is late.
use logic_operator.Prelude.{
  ℕ, suc, String, ◌≡◌, refl, false, All, ◌↔◌, true, Option, none, some, List, [], ◌∷◌, err, ok,
  text_Eq, ◌==◌,
}
use logic_operator.Api.Client.{not_found}
use logic_operator.Api.Conditions.{
  Condition, condition_true, condition_false, ready, failed, find_condition, set_condition,
}
use logic_operator.Api.Conditions.Update.{upsert, first_of_kind}
use logic_operator.Api.Conditions.Reference.{reference_api}
use logic_operator.Api.Platform.{LogicPlatform, PersistenceConfigStatus, DataIndexStatus}
use logic_operator.Controller.Platform.{
  PlatformComponent, PlatformServer, update_logic_platform_readiness, reconcile_phases,
  write_status,
}
use logic_operator.Controller.Platform.Ready.{AllReady, update_logic_platform_readiness_iff}
use logic_operator.Controller.Platform.Phases.{
  after_all, all_seen, Reconciles, Updates, reconcile_phases-all,
}
use logic_operator.Prelude.Assoc.{get}
use logic_operator.Api.Application.{PersistencePostgreSql}
use logic_operator.Controller.Persistence.{PersistenceServer, Report, update_status_persistence}
use logic_operator.Controller.Persistence.Ready.{IsServed, update_status_persistence-IsServed}
use logic_operator.Controller.Pool.{DeploymentCondition}
use logic_operator.Controller.DataIndex.{DataIndexServer, update_data_index_status}
use logic_operator.Controller.DataIndex.Ready.{IsTrue, reported, update_data_index_status-IsTrue}
use logic_operator.Examples.Admissions.{our_platform}

abbrev late_condition : Condition
late_condition = record {
  kind = "DataIndexDeploymentAvailable";
  status = condition_false;
  observed_generation = 1;
  reason = "ProgressDeadlineExceeded";
  message = "";
}

abbrev late_platform : LogicPlatform
late_platform = record our_platform {
  spec = record our_platform.spec {
    data_index = record our_platform.spec.data_index { enabled = true };
  };
  status = record our_platform.status { data_index = none; conditions = late_condition ∷ [] };
}

late_platform_phase :
    (update_logic_platform_readiness reference_api late_platform).status.phase ≡ failed
unfolding update_logic_platform_readiness first_of_kind
late_platform_phase = refl

update_logic_platform_readiness_iff_example :
    (((update_logic_platform_readiness reference_api late_platform).status.phase ≡ ready)
      ↔ AllReady late_platform)
    × ((c : Condition) × (find_condition reference_api
            (update_logic_platform_readiness reference_api late_platform).status.conditions
            "Ready"
          ≡ some c)
        × (c.observed_generation ≡ late_platform.generation)
        × ((c.status ≡ condition_true) ↔ AllReady late_platform))
update_logic_platform_readiness_iff_example =
    update_logic_platform_readiness_iff reference_api late_platform

-- The state of the cluster is the number of calls; the first component fails.
abbrev counting : PlatformServer ℕ
counting = record {
  get_platform = λ w namespace name. err not_found;
  write_status = λ w plat. (suc w, none);
}

abbrev component : String → Option String → PlatformComponent ℕ
component name error = record {
  name = name;
  reconcile = λ w plat. record { world = suc w; plat = plat; error = error };
  update_status = λ w plat. (plat, none);
}

abbrev components : List (PlatformComponent ℕ)
components = component "data-index" (some "no deployment") ∷ component "workflow-gateway" none ∷ []

reconcile_phases_run :
    reconcile_phases reference_api counting components 0 late_platform
    ≡ (3, "data-index: no deployment" ∷ [])
unfolding reconcile_phases
reconcile_phases_run = refl

reconcile_phases-all_example :
    ((reconcile_phases reference_api counting components 0 late_platform).0
      ≡ (write_status reference_api counting
          (after_all components 0 late_platform).0
          (all_seen components 0 late_platform)).0)
    × (((reconcile_phases reference_api counting components 0 late_platform).1 ≡ []) ↔ (
        Reconciles components 0 late_platform
        × Updates components
            (after_all components 0 late_platform).0
            (after_all components 0 late_platform).1
        × ((write_status reference_api counting
              (after_all components 0 late_platform).0
              (all_seen components 0 late_platform)).1
            ≡ none)))
reconcile_phases-all_example =
    reconcile_phases-all reference_api counting components 0 late_platform

abbrev postgresql : PersistencePostgreSql
postgresql = record {
  secret_ref = record { name = "db"; user_key = ""; password_key = "" };
  service_ref = record {
    sql = some (record { name = "pg"; namespace = ""; port = none; database_name = "flows" });
    database_schema = "index";
  };
  tls = none;
}

-- The Data Index has no ready pod, and the database accepts one user.
abbrev database : PersistenceServer
database = record {
  get_secret = λ namespace name. ok (record { values = ("POSTGRESQL_USER", "flow") ∷ [] });
  get_service = λ namespace name. ok tt;
  get_deployment = λ namespace name. ok (record {
    name = name;
    uid = "u9";
    replicas = 1;
    ready_replicas = 0;
    updated_replicas = 0;
    conditions = [];
  });
  connector = some (λ host port user password name. ok (user == "flow"));
  show_error = λ e. "error";
}

abbrev connected : PersistenceConfigStatus
connected = record {
  valid = true;
  secret_exists = true;
  service_exists = true;
  database_connected = some true;
  error = "";
}

abbrev connected_report : Report
connected_report = (true, "Ready", "PostgreSQL database connection verified")

persistence_run :
    update_status_persistence database our_platform (some postgresql)
    ≡ ok (some connected, connected_report)
unfolding update_status_persistence get
persistence_run = refl

update_status_persistence-IsServed_example : IsServed database our_platform postgresql
update_status_persistence-IsServed_example =
    update_status_persistence-IsServed database our_platform postgresql (some connected)
      connected_report persistence_run refl

abbrev available : DeploymentCondition
available = record {
  kind = "Available";
  status = condition_true;
  reason = "MinimumReplicasAvailable";
  message = "";
}

abbrev data_index_server : DataIndexServer
data_index_server = record {
  persistence = record database {
    get_deployment = λ namespace name. ok (record {
      name = name;
      uid = "u9";
      replicas = 1;
      ready_replicas = 1;
      updated_replicas = 1;
      conditions = available ∷ [];
    });
  };
  openshift = false;
  get_route = λ namespace name. err not_found;
  get_ingress = λ namespace name. err not_found;
}

abbrev condition_of : String → String → String → Condition
condition_of kind reason message = record {
  kind = kind;
  status = condition_true;
  observed_generation = 1;
  reason = reason;
  message = message;
}

abbrev ready_status : DataIndexStatus
ready_status = record {
  ready = true;
  service = record {
    deployment_ref = "platform-data-index";
    service_ref = "platform-data-index";
    replicas = record { desired = 1; current = 1; ready = 1; updated = 1 };
    graphql_endpoint = "http://platform-data-index.shop.svc.cluster.local:80/graphql";
    metrics_endpoint = "http://platform-data-index.shop.svc.cluster.local:80/q/metrics";
    url = "";
  };
  persistence = none;
}

abbrev ready_platform : LogicPlatform
ready_platform = record our_platform {
  status = record our_platform.status {
    data_index = some ready_status;
    conditions =
        condition_of "DataIndexPersistenceReady" "Ready" "No persistence configured"
        ∷ condition_of "DataIndexDeploymentAvailable" "MinimumReplicasAvailable" ""
        ∷ condition_of "DataIndexServiceReady" "Ready" ""
        ∷ condition_of "DataIndexReady" "Ready" "Data Index is ready"
        ∷ [];
  };
}

data_index_run :
    update_data_index_status reference_api data_index_server our_platform ≡ ok ready_platform
unfolding update_data_index_status set_condition upsert first_of_kind
data_index_run = refl

update_data_index_status-IsTrue_example :
    All (IsTrue reference_api ready_platform.status.conditions) reported
update_data_index_status-IsTrue_example =
    update_data_index_status-IsTrue reference_api data_index_server our_platform ready_platform
      ready_status refl data_index_run refl refl
