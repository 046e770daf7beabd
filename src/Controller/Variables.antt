-- ===== src/Controller/Variables.antt =====
-- internal/controller/quarkus_config.go: the environment variables of a Quarkus Flow runner.
use logic_operator.Prelude.{
  ℕ, String, Bool, true, false, Option, none, some, List, [], ◌∷◌, ◌++◌, keep_if, not, text_Eq,
  number_Eq, ◌==◌, if◌then◌else◌, ◌||◌,
}
use logic_operator.Prelude.Text.{sprintf, contains_text}
use logic_operator.Api.Container.{EnvVar}
use logic_operator.Api.Application.{
  PersistenceOptionsSpec, PersistencePostgreSql, PostgreSqlServiceOptions, TlsConnection,
}
use logic_operator.Api.Runtime.{
  RuntimeSecuritySpec, security_api_key, security_oidc, ApiKeySpec, OidcAuthSpec,
  StructuredLoggingSpec,
}
use logic_operator.Controller.Objects.{
  build_postgres_address, env_literal, env_field_ref, env_from_secret,
}
use logic_operator.Controller.Workload.{ContainerOption}
use logic_operator.Controller.Quarkus.{or_else}

abbrev pub with_schema : String → String → String
with_schema url schema =
    if schema == "" then url else sprintf (url ∷ "?currentSchema=" ∷ schema ∷ [])

abbrev pub or_port : Option ℕ → ℕ
or_port none = 5432
or_port (some port) = port

-- buildJdbcURL
unfoldable pub build_jdbc_url : PostgreSqlServiceOptions → String
unfolding build_postgres_address sprintf
build_jdbc_url ref = elim ref.sql [
  | none ↦ ""
  | some sql ↦
      with_schema
        (sprintf (
          "jdbc:postgresql://"
          ∷ build_postgres_address sql.name sql.namespace (or_port sql.port)
          ∷ "/"
          ∷ or_else sql.database_name "logicflow"
          ∷ []))
        ref.database_schema
]

-- The `sslmode` that persistenceQuarkusEnvVars adds to the URL
unfoldable pub with_ssl_mode : Option TlsConnection → String → String
unfolding contains_text sprintf
with_ssl_mode none url = url
with_ssl_mode (some tls) url =
    if tls.enabled
    then sprintf (
        url
        ∷ (if contains_text "?" url then "&sslmode=" else "?sslmode=")
        ∷ or_else tls.tls_mode "prefer"
        ∷ [])
    else url

abbrev pub schema_env : String → List EnvVar
schema_env schema =
    if schema == ""
    then []
    else env_literal "QUARKUS_HIBERNATE_ORM_DATABASE_DEFAULT_SCHEMA" schema ∷ []

abbrev pub postgresql_env : PersistencePostgreSql → List EnvVar
postgresql_env pg =
    env_from_secret "QUARKUS_DATASOURCE_USERNAME" pg.secret_ref.name
      (or_else pg.secret_ref.user_key "POSTGRESQL_USER")
    ∷ env_from_secret "QUARKUS_DATASOURCE_PASSWORD" pg.secret_ref.name
        (or_else pg.secret_ref.password_key "POSTGRESQL_PASSWORD")
    ∷ env_literal "QUARKUS_DATASOURCE_JDBC_URL"
        (with_ssl_mode pg.tls (build_jdbc_url pg.service_ref))
    ∷ schema_env pg.service_ref.database_schema

-- persistenceQuarkusEnvVars
unfoldable pub persistence_quarkus_env_vars : Option PersistenceOptionsSpec → List EnvVar
unfolding env_from_secret env_literal with_ssl_mode build_jdbc_url
persistence_quarkus_env_vars none = []
persistence_quarkus_env_vars (some p) = elim p.postgresql [
  | none ↦ []
  | some pg ↦ postgresql_env pg
]

-- WithQuarkusPersistenceEnvVars
unfoldable pub with_quarkus_persistence_env_vars : Option PersistenceOptionsSpec → ContainerOption
unfolding persistence_quarkus_env_vars
with_quarkus_persistence_env_vars p c = record c { env = c.env ++ persistence_quarkus_env_vars p }

abbrev pub show_bool : Bool → String
show_bool true = "true"
show_bool false = "false"

abbrev pub flag_env : String → Option Bool → List EnvVar
flag_env name none = []
flag_env name (some value) = env_literal name (show_bool value) ∷ []

-- structuredLoggingEnvVars
unfoldable pub structured_logging_env_vars : Option StructuredLoggingSpec → List EnvVar
unfolding env_literal
structured_logging_env_vars none = []
structured_logging_env_vars (some logging) =
    flag_env "QUARKUS_FLOW_STRUCTURED_LOGGING_ENABLED" logging.enabled
    ++ (flag_env "QUARKUS_FLOW_STRUCTURED_LOGGING_INCLUDE_WORKFLOW_PAYLOADS"
          logging.include_workflow_payloads
        ++ flag_env "QUARKUS_FLOW_STRUCTURED_LOGGING_INCLUDE_TASK_PAYLOADS"
            logging.include_task_payloads)

-- WithStructuredLoggingEnvVars
unfoldable pub with_structured_logging_env_vars : Option StructuredLoggingSpec → ContainerOption
unfolding structured_logging_env_vars
with_structured_logging_env_vars logging c = record c {
  env = c.env ++ structured_logging_env_vars logging;
}

-- strings.Join
unfoldable pub join : List String → String → String
unfolding sprintf
join [] separator = ""
join (s ∷ []) separator = s
join (s ∷ t ∷ rest) separator = sprintf (s ∷ separator ∷ join (t ∷ rest) separator ∷ [])

-- The variables of one key in apiKeyEnvVars
unfoldable pub key_env : ApiKeySpec → List EnvVar
unfolding sprintf env_from_secret env_literal join
key_env key =
    let prefix = sprintf ("QUARKUS_FLOW_RUNNER_SECURITY_API_KEYS__\"" ∷ key.name ∷ "\"" ∷ []) in
    env_from_secret (sprintf (prefix ∷ "__SECRET" ∷ [])) key.secret_ref.name
      (or_else key.secret_ref.key "value")
    ∷ env_literal (sprintf (prefix ∷ "__ROLES" ∷ [])) (join key.roles ",")
    ∷ env_literal (sprintf (prefix ∷ "__NAMESPACES" ∷ [])) "*"
    ∷ []

unfoldable pub keys_env : List ApiKeySpec → List EnvVar
unfolding key_env
keys_env [] = []
keys_env (key ∷ keys) = key_env key ++ keys_env keys

abbrev pub key_list : Option (List ApiKeySpec) → List ApiKeySpec
key_list none = []
key_list (some keys) = keys

-- apiKeyEnvVars
unfoldable pub api_key_env_vars : Option (List ApiKeySpec) → List EnvVar
unfolding env_literal keys_env
api_key_env_vars keys =
    env_literal "QUARKUS_FLOW_RUNNER_SECURITY_TYPE" "api-key" ∷ keys_env (key_list keys)

abbrev pub roles_env : String → List EnvVar
roles_env claim =
    if claim == "" || claim == "roles"
    then []
    else env_literal "QUARKUS_OIDC_ROLES_CLAIM" claim ∷ []

abbrev pub client_env : Option OidcAuthSpec → List EnvVar
client_env none = []
client_env (some oidc) =
    env_literal "QUARKUS_OIDC_AUTH_SERVER_URL" oidc.auth_server_url
    ∷ env_literal "QUARKUS_OIDC_CLIENT_ID" oidc.client_id
    ∷ env_from_secret "QUARKUS_OIDC_CREDENTIALS_SECRET" oidc.client_secret.name
        (or_else oidc.client_secret.key "value")
    ∷ roles_env oidc.roles_claim

-- oidcEnvVars
unfoldable pub oidc_env_vars : Option OidcAuthSpec → List EnvVar
unfolding env_literal env_from_secret
oidc_env_vars oidc = env_literal "QUARKUS_FLOW_RUNNER_SECURITY_TYPE" "oidc" ∷ client_env oidc

-- securityEnvVars
unfoldable pub security_env_vars : RuntimeSecuritySpec → List EnvVar
unfolding api_key_env_vars oidc_env_vars env_literal
security_env_vars sec = elim sec.kind [
  | security_api_key ↦ api_key_env_vars sec.api_key
  | security_oidc ↦ oidc_env_vars sec.oidc
  | _ ↦ env_literal "QUARKUS_FLOW_RUNNER_SECURITY_TYPE" "none" ∷ []
]

-- WithSecurityEnvVars
unfoldable pub with_security_env_vars : RuntimeSecuritySpec → ContainerOption
unfolding security_env_vars
with_security_env_vars sec c = record c { env = c.env ++ security_env_vars sec }

-- The loop that leaves out the variables whose name passes the test
unfoldable pub without : (String → Bool) → List EnvVar → List EnvVar
without test envs = keep_if (λ (e : EnvVar). not (test e.name)) envs

abbrev pub is_source_path : String → Bool
is_source_path name = name == "QUARKUS_FLOW_RUNNER_SOURCE_PATH"

-- WithFlowSourcePath
unfoldable pub with_flow_source_path : ContainerOption
unfolding without env_literal
with_flow_source_path c = record c {
  env =
      without is_source_path c.env
      ++ (env_literal "QUARKUS_FLOW_RUNNER_SOURCE_PATH" "/deployments/workflows" ∷ []);
}

-- The names of WithDurableEnvVars that a resource cannot set
unfoldable pub is_immutable : String → Bool
is_immutable name =
    name == "QUARKUS_FLOW_DURABLE_KUBE_LEASE_LEADER_ENABLED"
    || (name == "QUARKUS_FLOW_DURABLE_KUBE_POOL_NAME"
        || (name == "POD_NAME" || name == "POD_NAMESPACE"))

-- The loop that looks for the timeout
unfoldable pub has_lease_timeout : List EnvVar → Bool
has_lease_timeout [] = false
has_lease_timeout (e ∷ envs) =
    let rest = has_lease_timeout envs in
    if e.name == "QUARKUS_FLOW_DURABLE_KUBE_LEASE_MEMBER_ACQUIRE_TIMEOUT" then true else rest

abbrev pub durable_env : String → List EnvVar
durable_env pool =
    env_literal "QUARKUS_FLOW_DURABLE_KUBE_LEASE_LEADER_ENABLED" "false"
    ∷ env_literal "QUARKUS_FLOW_DURABLE_KUBE_POOL_NAME" pool
    ∷ env_literal "QUARKUS_FLOW_DURABLE_KUBE_LEASE_MEMBER_DURATION" "30"
    ∷ env_literal "QUARKUS_FLOW_DURABLE_KUBE_SCHEDULERS_MEMBER_INTERVAL" "10s"
    ∷ env_field_ref "POD_NAME" "metadata.name"
    ∷ env_field_ref "POD_NAMESPACE" "metadata.namespace"
    ∷ []

abbrev pub timeout_env : Bool → List EnvVar
timeout_env true = []
timeout_env false = env_literal "QUARKUS_FLOW_DURABLE_KUBE_LEASE_MEMBER_ACQUIRE_TIMEOUT" "30S" ∷ []

-- WithDurableEnvVars of the runtime with this name
unfoldable pub with_durable_env_vars : String → ContainerOption
unfolding without is_immutable has_lease_timeout env_literal env_field_ref
with_durable_env_vars pool c =
    let kept = without is_immutable c.env in
    record c { env = kept ++ (durable_env pool ++ timeout_env (has_lease_timeout kept)) }
