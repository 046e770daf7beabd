-- ===== src/Controller/DataIndex.antt =====
-- internal/controller/platform_dataindex.go: the status of the Data Index, updateDataIndexStatus
-- and what it calls, by the answers of the API server. The status of the platform is changed in
-- place; here a step gives the status of the Data Index and the conditions that it leaves, or its
-- error alone, without what was written into the status before the error.
pub mod Ready
use logic_operator.Prelude.{
  ℕ, String, Bool, true, false, Option, none, some, List, [], ◌∷◌, Outcome, ok, err, ◌>>=◌, ◌&&◌,
  text_Eq, ◌==◌, if◌then◌else◌,
}
use logic_operator.Prelude.Text.{sprintf}
use logic_operator.Api.Client.{GetError, not_found, other_error}
use logic_operator.Api.Conditions.{
  Condition, ConditionsApi, Status, condition_true, condition_false, condition_unknown, is_false,
  set_condition,
}
use logic_operator.Api.Application.{PersistenceOptionsSpec, PersistencePostgreSql}
use logic_operator.Api.Platform.{LogicPlatform, DataIndexStatus, DataIndexServiceStatus}
use logic_operator.Controller.Pool.{Deployment, DeploymentCondition}
use logic_operator.Controller.Address.{RouteHosts, IngressHosts, resolve_ingress_url}
use logic_operator.Controller.Persistence.{
  PersistenceServer, PersistenceError, request_failed, data_index_name, Report,
  update_status_persistence,
}
use logic_operator.Controller.Platform.{
  remove_logic_platform_condition, platform_component_readiness,
}

-- What the status of the Data Index reads beside its database: whether the cluster is OpenShift, and
-- the Route and the Ingress of the Data Index
pub record DataIndexServer : Type 0 where
  pub persistence : PersistenceServer
  pub openshift : Bool
  pub get_route : String → String → Outcome GetError RouteHosts
  pub get_ingress : String → String → Outcome GetError IngressHosts

-- A nil status is replaced by an empty one.
abbrev pub or_empty : Option DataIndexStatus → DataIndexStatus
or_empty (some status) = status
or_empty none = record {
  ready = false;
  service = record {
    deployment_ref = "";
    service_ref = "";
    replicas = record { desired = 0; current = 0; ready = 0; updated = 0 };
    graphql_endpoint = "";
    metrics_endpoint = "";
    url = "";
  };
  persistence = none;
}

abbrev pub with_service :
    DataIndexStatus → (DataIndexServiceStatus → DataIndexServiceStatus) → DataIndexStatus
with_service status change = record status { service = change status.service }

abbrev pub postgresql_of : Option PersistenceOptionsSpec → Option PersistencePostgreSql
postgresql_of none = none
postgresql_of (some p) = p.postgresql

abbrev pub Seen : Type 0
Seen = DataIndexStatus × List Condition

abbrev pub status_of : Bool → Status
status_of true = condition_true
status_of false = condition_false

-- internalServiceURL
unfoldable pub internal_service_url : LogicPlatform → String
unfolding sprintf data_index_name
internal_service_url plat =
    sprintf ("http://" ∷ data_index_name plat ∷ "." ∷ plat.namespace ∷ ".svc.cluster.local:80" ∷ [])

abbrev pub with_urls : DataIndexStatus → String → String → DataIndexStatus
with_urls status base external = with_service status (λ service. record service {
  graphql_endpoint = sprintf (base ∷ "/graphql" ∷ []);
  metrics_endpoint = sprintf (base ∷ "/q/metrics" ∷ []);
  url = external;
})

module _ (api : ConditionsApi) (generation : ℕ) where
  abbrev pub set : String → List Condition → Status → String → String → List Condition
  set kind conditions status reason message =
      set_condition api conditions kind status generation reason message

  -- What one condition of the Deployment says of the condition DataIndexDeploymentAvailable
  unfoldable pub available_step : List Condition → DeploymentCondition → List Condition
  available_step conditions c =
      if c.kind == "Available"
      then elim c.status [
        | condition_true ↦
            set "DataIndexDeploymentAvailable" conditions condition_true c.reason c.message
        | condition_false ↦
            set "DataIndexDeploymentAvailable" conditions condition_false c.reason c.message
        | condition_unknown ↦ conditions
      ]
      else if c.kind == "Progressing"
          && (is_false c.status && c.reason == "ProgressDeadlineExceeded")
      then set "DataIndexDeploymentAvailable" conditions condition_false c.reason c.message
      else conditions

  unfoldable pub available_loop : List Condition → List DeploymentCondition → List Condition
  unfolding available_step
  available_loop conditions [] = conditions
  available_loop conditions (c ∷ cs) = available_loop (available_step conditions c) cs

  abbrev pub with_replicas : DataIndexStatus → ℕ → ℕ → ℕ → ℕ → DataIndexStatus
  with_replicas status desired current ready updated = with_service status (λ service.
      record service {
        replicas = record {
          desired = desired;
          current = current;
          ready = ready;
          updated = updated;
        };
      })

  -- updateDataIndexStatusDeployment, by what the server answers and the replicas of the application
  unfoldable pub update_data_index_status_deployment :
      Option ℕ → Outcome GetError Deployment → Seen → Outcome PersistenceError Seen
  unfolding available_loop
  update_data_index_status_deployment replicas (err not_found) (status, conditions) = ok (
    with_replicas status 0 0 0 0,
    set "DataIndexDeploymentAvailable" conditions condition_false "DataIndexDeploymentNotFound" "",
  )
  update_data_index_status_deployment replicas (err (other_error message)) seen =
      err (request_failed message)
  update_data_index_status_deployment replicas (ok d) (status, conditions) = ok (
    with_replicas status (elim replicas [ none ↦ 1 | some n ↦ n ]) d.replicas d.ready_replicas
        d.updated_replicas,
    available_loop
        (set "DataIndexDeploymentAvailable" conditions condition_false "DeploymentProgressing" "")
        d.conditions,
  )

  module _ (server : DataIndexServer) where
    -- resolveExternalURL for a Data Index whose ingress is enabled, and "" for another
    unfoldable pub resolve_external_url : LogicPlatform → Outcome String String
    unfolding resolve_ingress_url
    resolve_external_url plat = elim plat.spec.data_index.ingress [
      | none ↦ ok ""
      | some ingress ↦
          let url =
            resolve_ingress_url server.openshift ingress.tls.enabled
              (server.get_route plat.namespace (data_index_name plat))
              (server.get_ingress plat.namespace (data_index_name plat)) in
          if ingress.enabled then url else ok ""
    ]

    abbrev pub with_external :
        LogicPlatform
        → DataIndexStatus
        → Outcome String String
        → Outcome PersistenceError DataIndexStatus
    with_external plat status (err message) = err (request_failed message)
    with_external plat status (ok url) = ok (
        if url == ""
        then with_urls status (internal_service_url plat) ""
        else with_urls status url url)

    -- updateDeploymentStatusService, by what the server answers
    unfoldable pub update_deployment_status_service :
        LogicPlatform → Outcome GetError (Unit {0}) → Seen → Outcome PersistenceError Seen
    unfolding resolve_external_url internal_service_url sprintf
    update_deployment_status_service plat (err not_found) (status, conditions) = ok (
      with_service status
          (λ service. record service { graphql_endpoint = ""; metrics_endpoint = ""; url = "" }),
      set "DataIndexServiceReady" conditions condition_false "DataIndexServiceNotFound" "",
    )
    update_deployment_status_service plat (err (other_error message)) seen =
        err (request_failed message)
    update_deployment_status_service plat (ok _) (status, conditions) =
        with_external plat status (resolve_external_url plat) >>= λ addressed.
        ok (addressed, set "DataIndexServiceReady" conditions condition_true "Ready" "")

    abbrev pub with_report : Seen → Report → Seen
    with_report (status, conditions) (is_ready, reason, message) = (
      record status { ready = is_ready },
      set "DataIndexReady" conditions (status_of is_ready) (if is_ready then "Ready" else reason)
          (if is_ready then "Data Index is ready" else message),
    )

    -- The last part of updateDataIndexStatus
    unfoldable pub set_data_index_ready : Seen → Seen
    unfolding platform_component_readiness
    set_data_index_ready (status, conditions) =
        with_report (status, conditions)
          (platform_component_readiness api conditions (
            "DataIndexDeploymentAvailable" ∷ "DataIndexServiceReady" ∷ "DataIndexPersistenceReady"
            ∷ []))

    -- The three parts of an enabled Data Index
    unfoldable pub observe_parts : LogicPlatform → Outcome PersistenceError Seen
    unfolding update_status_persistence update_data_index_status_deployment
        update_deployment_status_service data_index_name
    observe_parts plat =
        let name = data_index_name plat in
        let named =
          with_service (or_empty plat.status.data_index)
            (λ service. record service { deployment_ref = name; service_ref = name }) in
        update_status_persistence server.persistence plat
          (postgresql_of plat.spec.data_index.persistence)
        >>= λ checked.
            let (persistence, (healthy, reason, message)) = checked in
            update_data_index_status_deployment plat.spec.data_index.application.replicas
              (server.persistence.get_deployment plat.namespace name)
              (
                record named { persistence = persistence },
                set "DataIndexPersistenceReady" plat.status.conditions (status_of healthy) reason
                    message,
              )
            >>= update_deployment_status_service plat
                (server.persistence.get_service plat.namespace name)

    -- updateDataIndexStatus of an enabled Data Index
    unfoldable pub observe_data_index : LogicPlatform → Outcome PersistenceError Seen
    unfolding observe_parts set_data_index_ready
    observe_data_index plat = observe_parts plat >>= λ seen. ok (set_data_index_ready seen)

abbrev pub finished : LogicPlatform → Seen → Outcome PersistenceError LogicPlatform
finished plat seen =
    ok (record plat {
      status = record plat.status { data_index = some seen.0; conditions = seen.1 };
    })

-- updateDataIndexStatus
unfoldable pub update_data_index_status :
    ConditionsApi → DataIndexServer → LogicPlatform → Outcome PersistenceError LogicPlatform
unfolding observe_data_index remove_logic_platform_condition
update_data_index_status api server plat =
    if plat.spec.data_index.enabled
    then observe_data_index api plat.generation server plat >>= finished plat
    else ok (record plat {
      status = record plat.status {
        data_index = none;
        conditions = remove_logic_platform_condition plat.status.conditions (
            "DataIndexReady" ∷ "DataIndexDeploymentAvailable" ∷ "DataIndexServiceReady"
            ∷ "DataIndexPersistenceReady" ∷ []);
      };
    })
