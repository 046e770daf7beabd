-- ===== src/Controller/Persistence.antt =====
-- internal/controller/platform_dataindex.go: the check of the Data Index's database,
-- updateStatusPersistence. What the API server and the database answer is the parameter `server`.
-- The embedded pointer `*SQLServiceOptions` is dereferenced after the secret is fetched; a nil
-- pointer is the error `nil_service_ref`.
pub mod Ready
use logic_operator.Prelude.{
  ℕ, String, Bool, true, false, Option, none, some, List, [], ◌∷◌, Outcome, ok, err, ◌>>=◌, ◌&&◌,
  text_Eq, ◌==◌, if◌then◌else◌, ltb,
}
use logic_operator.Prelude.Assoc.{Assoc, get}
use logic_operator.Prelude.Text.{sprintf}
use logic_operator.Api.Client.{GetError, not_found, other_error}
use logic_operator.Api.Application.{PersistencePostgreSql, SqlServiceOptions}
use logic_operator.Api.Platform.{LogicPlatform, PersistenceConfigStatus}
use logic_operator.Controller.Objects.{build_postgres_address}
use logic_operator.Controller.Pool.{Deployment}
use logic_operator.Controller.Quarkus.{or_else}
use logic_operator.Controller.Variables.{or_port}

-- corev1.Secret, by its data
pub record Secret : Type 0 where
  pub values : Assoc String String

-- DatabaseConnector.Ping: host, port, user, password and database
abbrev pub Ping : Type 0
Ping = String → ℕ → String → String → String → Outcome String Bool

pub record PersistenceServer : Type 0 where
  -- by namespace and name
  pub get_secret : String → String → Outcome GetError Secret
  pub get_service : String → String → Outcome GetError (Unit {0})
  pub get_deployment : String → String → Outcome GetError Deployment
  pub connector : Option Ping
  -- `%v` of an error of the client
  pub show_error : GetError → String

pub data PersistenceError : Type 0 where
  nil_service_ref : PersistenceError
  request_failed : String → PersistenceError

-- What a check reports: whether it is healthy, the reason and the message
abbrev pub Report : Type 0
Report = Bool × String × String

-- dataIndexName
unfoldable pub data_index_name : LogicPlatform → String
unfolding sprintf
data_index_name plat = sprintf (plat.name ∷ "-data-index" ∷ [])

abbrev pub value_of : Secret → String → String
value_of secret key = elim (get key secret.values) [ none ↦ "" | some value ↦ value ]

-- What `Ping` answers
unfoldable pub ping_report : Outcome String Bool → Report
unfolding sprintf
ping_report (err message) =
    (false, "DatabaseUnreachable", sprintf ("failed to connect to PostgreSQL: " ∷ message ∷ []))
ping_report (ok connected) =
    if connected
    then (true, "Ready", "PostgreSQL database connection verified")
    else (false, "DatabaseUnreachable", "PostgreSQL connection check failed")

-- The call of the connector with the credentials of the secret
unfoldable pub ping_with :
    Ping → LogicPlatform → PersistencePostgreSql → SqlServiceOptions → Secret → Outcome String Bool
unfolding build_postgres_address
ping_with ping plat pg sql secret =
    ping (build_postgres_address sql.name (or_else sql.namespace plat.namespace) 0)
      (or_port sql.port) (value_of secret (or_else pg.secret_ref.user_key "POSTGRESQL_USER"))
      (value_of secret (or_else pg.secret_ref.password_key "POSTGRESQL_PASSWORD")) sql.database_name

-- Whether an object is there; any other error ends the check.
unfoldable pub exists : {A : Type 0} → Outcome GetError A → Outcome PersistenceError Bool
exists (err not_found) = ok false
exists (err (other_error message)) = err (request_failed message)
exists (ok _) = ok true

-- The text of `status.Error`
unfoldable pub missing_text : Bool → Bool → String → String → String
unfolding sprintf
missing_text true true secret service = ""
missing_text false true secret service = sprintf ("secret " ∷ secret ∷ " not found" ∷ [])
missing_text true false secret service = sprintf ("service " ∷ service ∷ " not found" ∷ [])
missing_text false false secret service =
    sprintf ("secret " ∷ secret ∷ " not found; service " ∷ service ∷ " not found" ∷ [])

module _ (server : PersistenceServer) where
  -- checkPostgresDatabaseHealth
  unfoldable pub check_postgres_database_health :
      LogicPlatform → PersistencePostgreSql → SqlServiceOptions → Report
  unfolding ping_report ping_with sprintf
  check_postgres_database_health plat pg sql =
      elim (server.get_secret plat.namespace pg.secret_ref.name) [
        | err e ↦ (
          false,
          "DatabaseUnreachable",
          sprintf ("failed to read PostgreSQL credentials: " ∷ server.show_error e ∷ []),
        )
        | ok secret ↦ elim server.connector [
          | none ↦ (true, "Ready", "Persistence configuration is valid")
          | some ping ↦ ping_report (ping_with ping plat pg sql secret)
        ]
      ]

  -- checkPersistenceConnectivity
  unfoldable pub check_persistence_connectivity :
      LogicPlatform → PersistencePostgreSql → SqlServiceOptions → Report
  unfolding check_postgres_database_health data_index_name
  check_persistence_connectivity plat pg sql =
      elim (server.get_deployment plat.namespace (data_index_name plat)) [
        | err e ↦ (true, "Ready", "Persistence configuration is valid")
        | ok deployment ↦
            if ltb 0 deployment.ready_replicas
            then (true, "Ready", "DataIndex healthy, database connection verified")
            else check_postgres_database_health plat pg sql
      ]

  -- The status and the condition PersistenceReady by what exists
  unfoldable pub persistence_report :
      LogicPlatform
      → PersistencePostgreSql
      → SqlServiceOptions
      → Bool
      → Bool
      → Option PersistenceConfigStatus × Report
  unfolding missing_text check_persistence_connectivity
  persistence_report plat pg sql secret_exists service_exists =
      let text = missing_text secret_exists service_exists pg.secret_ref.name sql.name in
      let report = check_persistence_connectivity plat pg sql in
      if secret_exists && service_exists
      then (
        some (record {
          valid = true;
          secret_exists = true;
          service_exists = true;
          database_connected = some report.0;
          error = text;
        }),
        report,
      )
      else (
        some (record {
          valid = false;
          secret_exists = secret_exists;
          service_exists = service_exists;
          database_connected = none;
          error = text;
        }),
        (false, "PersistenceConfigInvalid", text),
      )

  -- updateStatusPersistence: the status of the persistence, and what it sets the condition
  -- DataIndexPersistenceReady to
  unfoldable pub update_status_persistence :
      LogicPlatform
      → Option PersistencePostgreSql
      → Outcome PersistenceError (Option PersistenceConfigStatus × Report)
  unfolding exists persistence_report
  update_status_persistence plat none = ok (none, (true, "Ready", "No persistence configured"))
  update_status_persistence plat (some pg) =
      exists (server.get_secret plat.namespace pg.secret_ref.name) >>= λ secret_exists.
      elim pg.service_ref.sql [
        | none ↦ err nil_service_ref
        | some sql ↦
            exists (server.get_service (or_else sql.namespace plat.namespace) sql.name)
            >>= λ service_exists. ok (persistence_report plat pg sql secret_exists service_exists)
      ]
