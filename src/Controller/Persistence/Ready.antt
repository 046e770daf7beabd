-- ===== src/Controller/Persistence/Ready.antt =====
-- When updateStatusPersistence reports that the database of the Data Index is ready.
use logic_operator.Prelude.{
  String, ◌<◌, ◌≡◌, refl, ◌↔◌, ◌⊎◌, inl, inr, true, Option, none, some, Outcome, ok, err, arith,
  ltb, false, Option-cases, Outcome-cases, Bool, Bool-cases, bind_ok,
}
use logic_operator.Api.Client.{GetError, not_found, other_error}
use logic_operator.Api.Application.{PersistencePostgreSql, SqlServiceOptions}
use logic_operator.Api.Platform.{LogicPlatform, PersistenceConfigStatus}
use logic_operator.Controller.Pool.{Deployment}
use logic_operator.Controller.Quarkus.{or_else}
use logic_operator.Controller.Persistence.{
  PersistenceServer, Secret, Ping, Report, data_index_name, ping_with, ping_report,
  check_postgres_database_health, check_persistence_connectivity, exists, persistence_report,
  update_status_persistence,
}

ping_report-true :
    (answer : Outcome String Bool) → ((ping_report answer).0 ≡ true) ↔ (answer ≡ ok true)
unfolding ping_report
ping_report-true (err message) = (λ h. cc, λ h. cc)
ping_report-true (ok true) = (λ h. refl, λ h. refl)
ping_report-true (ok false) = (λ h. cc, λ h. ground (arith, h))

exists-true :
    {A : Type 0} (answer : Outcome GetError A)
    → (exists answer ≡ ok true) ↔ ((a : A) × (answer ≡ ok a))
unfolding exists
exists-true (err not_found) = (λ h. ground (arith, h), λ (a, p). cc)
exists-true (err (other_error message)) = (λ h. cc, λ (a, p). cc)
exists-true (ok a) = (λ h. (a, refl), λ h. refl)

module _ (server : PersistenceServer) where
  -- The connection that is tried succeeds, or there is nothing to try it with.
  abbrev pub Connects : LogicPlatform → PersistencePostgreSql → SqlServiceOptions → Type 0
  Connects plat pg sql =
      (secret : Secret) × (server.get_secret plat.namespace pg.secret_ref.name ≡ ok secret)
      × ((server.connector ≡ none)
          ⊎ ((ping : Ping) × (server.connector ≡ some ping)
              × (ping_with ping plat pg sql secret ≡ ok true)))

  -- The Data Index cannot be fetched, has a ready pod, or the connection succeeds.
  abbrev pub Serves : LogicPlatform → PersistencePostgreSql → SqlServiceOptions → Type 0
  Serves plat pg sql =
      ((e : GetError) × (server.get_deployment plat.namespace (data_index_name plat) ≡ err e))
      ⊎ ((d : Deployment) × (server.get_deployment plat.namespace (data_index_name plat) ≡ ok d)
          × ((0 < d.ready_replicas) ⊎ Connects plat pg sql))

  check_postgres_database_health-true :
      (plat : LogicPlatform) (pg : PersistencePostgreSql) (sql : SqlServiceOptions)
      → ((check_postgres_database_health server plat pg sql).0 ≡ true) ↔ Connects plat pg sql
  unfolding check_postgres_database_health
  check_postgres_database_health-true plat pg sql =
      elim (Outcome-cases (server.get_secret plat.namespace pg.secret_ref.name)) [
        | inr (e, p) ↦ (λ h. ground (arith, p, h), λ (s, q, r). ground (arith, p, q))
        | inl (secret, p) ↦ elim (Option-cases server.connector) [
          | inl n ↦ (λ h. (secret, p, inl n), λ c. ground (arith, p, n))
          | inr (ping, n) ↦
              let (there, back) = ping_report-true (ping_with ping plat pg sql secret) in
              (
                λ h. (secret, p, inr (ping, n, there (ground (arith, p, n, h)))),
                λ (s, q, r).
                    rw (check_postgres_database_health, p, n)
                      (elim r [
                        | inl m ↦ ground (arith, m, n)
                        | inr (other, m, k) ↦ back (ground (arith, p, q, m, n, k))
                      ]),
              )
        ]
      ]

  check_persistence_connectivity-true :
      (plat : LogicPlatform) (pg : PersistencePostgreSql) (sql : SqlServiceOptions)
      → ((check_persistence_connectivity server plat pg sql).0 ≡ true) ↔ Serves plat pg sql
  unfolding check_persistence_connectivity
  check_persistence_connectivity-true plat pg sql =
      let (there, back) = check_postgres_database_health-true plat pg sql in
      elim (Outcome-cases (server.get_deployment plat.namespace (data_index_name plat))) [
        | inr (e, p) ↦ (λ h. inl (e, p), λ s. ground (arith, p))
        | inl (d, p) ↦ elim (Bool-cases (ltb 0 d.ready_replicas)) [
          | inl n ↦ (λ h. inr (d, p, inl (ground (arith, n))), λ s. ground (arith, p, n))
          | inr n ↦ (
            λ h. inr (d, p, inr (there (ground (arith, p, n, h)))),
            λ s. elim s [
              | inl (e, q) ↦ ground (arith, p, q)
              | inr (b, q, inl m) ↦ ground (arith, p, q, n, m)
              | inr (b, q, inr c) ↦ ground (arith, p, n, back c)
            ],
          )
        ]
      ]

  persistence_report-true :
      (plat : LogicPlatform) (pg : PersistencePostgreSql) (sql : SqlServiceOptions) (a b : Bool)
      → ((persistence_report server plat pg sql a b).1.0 ≡ true)
        ↔ ((a ≡ true) × (b ≡ true) × ((check_persistence_connectivity server plat pg sql).0 ≡ true))
  unfolding persistence_report
  persistence_report-true plat pg sql true true = (λ h. (refl, refl, h), λ h. h.2)
  persistence_report-true plat pg sql true false = (λ h. cc, λ h. cc (h.1))
  persistence_report-true plat pg sql false true = (λ h. cc, λ h. cc (h.0))
  persistence_report-true plat pg sql false false = (λ h. cc, λ h. cc (h.0))

  -- Each resource of the configuration is there, and the database is found to serve.
  pub record IsServed (plat : LogicPlatform) (pg : PersistencePostgreSql) : Type 0 where
    pub sql : SqlServiceOptions
    pub sql_is : pg.service_ref.sql ≡ some sql
    pub secret : (s : Secret) × (server.get_secret plat.namespace pg.secret_ref.name ≡ ok s)
    pub service :
        (u : Unit {0}) × (server.get_service (or_else sql.namespace plat.namespace) sql.name ≡ ok u)
    pub serves : Serves plat pg sql

  -- If updateStatusPersistence sets the condition of a configured PostgreSQL database to True, its
  -- secret and its service exist, and the Data Index cannot be fetched, has a ready pod, or the
  -- connection succeeds or there is no connector to try it with.
  pub update_status_persistence-IsServed :
      (plat : LogicPlatform) (pg : PersistencePostgreSql) (status : Option PersistenceConfigStatus)
      (report : Report)
      → update_status_persistence server plat (some pg) ≡ ok (status, report)
      → report.0 ≡ true
      → IsServed plat pg
  unfolding update_status_persistence
  update_status_persistence-IsServed plat pg status report h healthy =
      let (a, h1, r1) =
        bind_ok (exists (server.get_secret plat.namespace pg.secret_ref.name)) _ _ h in
      elim (Option-cases pg.service_ref.sql) [
        | inl n ↦ ground (arith, n, r1)
        | inr (sql, n) ↦
            let (b, h2, r2) =
              bind_ok (exists (server.get_service (or_else sql.namespace plat.namespace) sql.name))
                (λ b. ok (persistence_report server plat pg sql a b)) (status, report)
                (ground (arith, n, r1)) in
            let (there, back) = persistence_report-true plat pg sql a b in
            let all = there (ground (arith, r2, healthy)) in
            record {
              sql = sql;
              sql_is = n;
              secret = (exists-true _).0 (ground (arith, h1, all.0));
              service = (exists-true _).0 (ground (arith, h2, all.1));
              serves = (check_persistence_connectivity-true plat pg sql).0 all.2;
            }
      ]
