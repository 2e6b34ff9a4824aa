-- ===== src/Beacon/Database.antt =====
-- ext/beacon/influxdb.go: the client of InfluxDB, and its database.
use interlock_old.Prelude.{
  ◌≡◌, refl, inl, inr, String, ◌<>◌, true, false, List, [], ◌∷◌, Option, none, some, Bool-cases,
}
use interlock_old.Go.Outcome.{Outcome, ok, err, panic, ◌>>=◌, Outcome-cases}
use interlock_old.Go.Text.{contains}
use interlock_old.Config.{ExtensionConfig}

-- client.Response
pub record Response : Type 0 where
  pub error : Option String
  pub results : List String

-- What the code asks of the package influxdb: NewHTTPClient with the address, the user and the password,
-- and Query with the queries made before, the database and the command.
pub record Database : Type 0 where
  pub new_http_client : String → String → String → Outcome (Unit {0})
  pub query : List String → String → String → Outcome Response

unfoldable pub response_of : Response → Outcome (List String)
response_of response = elim (response.error) [ none ↦ ok response.results | some e ↦ err e ]

-- How NewInfluxDBClient ends, and the commands that it sent.
pub record Opened : Type 0 where
  pub result : Outcome (Unit {0})
  pub commands : List String

abbrev pub check_command : String
check_command = "SELECT * from cpu_usage limit 1"

module _ (database : Database) where
  unfoldable pub query_db : List String → String → String → Outcome (List String)
  unfolding response_of
  query_db before db cmd = do response ← database.query before db cmd; response_of response

  unfoldable pub without_results : Outcome (List String) → Outcome (Unit {0})
  without_results (ok results) = ok tt
  without_results (err e) = err e
  without_results panic = panic

  -- After the check of the database: it is created where it is not found.
  unfoldable pub checked : String → Outcome (List String) → Opened
  unfolding query_db without_results contains
  checked db (ok results) = record { result = ok tt; commands = check_command ∷ [] }
  checked db panic = record { result = panic; commands = check_command ∷ [] }
  checked db (err e) = elim (contains e "database not found") [
    | true ↦ record {
      result = without_results (query_db (check_command ∷ []) db ("CREATE DATABASE " <> db));
      commands = check_command ∷ ("CREATE DATABASE " <> db) ∷ [];
    }
    | false ↦ record { result = err e; commands = check_command ∷ [] }
  ]

  unfoldable pub opened : ExtensionConfig → Outcome (Unit {0}) → Opened
  unfolding checked query_db
  opened cfg (ok u) =
      checked cfg.stats_influxdb_database (query_db [] cfg.stats_influxdb_database check_command)
  opened cfg (err e) = record { result = err e; commands = [] }
  opened cfg panic = record { result = panic; commands = [] }

  unfoldable pub new_influxdb_client : ExtensionConfig → Opened
  unfolding opened
  new_influxdb_client cfg = opened cfg (
      database.new_http_client cfg.stats_influxdb_address cfg.stats_influxdb_user
        cfg.stats_influxdb_password)

  -- The database was found, or was not found and has been created.
  pub data IsThere (db : String) : List String → Type 0 where
    found :
        (results : List String)
        → query_db [] db check_command ≡ ok results
        → IsThere db (check_command ∷ [])
    created :
        (e : String) (results : List String)
        → query_db [] db check_command ≡ err e
        → contains e "database not found" ≡ true
        → query_db (check_command ∷ []) db ("CREATE DATABASE " <> db) ≡ ok results
        → IsThere db (check_command ∷ ("CREATE DATABASE " <> db) ∷ [])

  without_results-ok :
      (m : Outcome (List String))
      → without_results m ≡ ok tt
      → (results : List String) × (m ≡ ok results)
  unfolding without_results
  without_results-ok (ok results) h = (results, refl)
  without_results-ok (err e) h = cc h
  without_results-ok panic h = cc h

  -- If NewInfluxDBClient returns a client, its database was found by the check, or was not found and has
  -- been created; it sent these commands and no other.
  new_influxdb_client-IsThere :
      (cfg : ExtensionConfig)
      → (new_influxdb_client cfg).result ≡ ok tt
      → IsThere cfg.stats_influxdb_database (new_influxdb_client cfg).commands
  unfolding new_influxdb_client opened checked
  new_influxdb_client-IsThere cfg h =
      let made =
        database.new_http_client cfg.stats_influxdb_address cfg.stats_influxdb_user
          cfg.stats_influxdb_password in
      elim (Outcome-cases made) [
        | inr (inl (e, failed)) ↦ cc (rw (new_influxdb_client, failed, opened) at h)
        | inr (inr panicked) ↦ cc (rw (new_influxdb_client, panicked, opened) at h)
        | inl (u, connected) ↦
            elim (Outcome-cases (query_db [] cfg.stats_influxdb_database check_command)) [
              | inl (results, answered) ↦
                  rw (new_influxdb_client, connected, opened, answered, checked)
                    (found results answered)
              | inr (inr panicked) ↦
                  cc (rw (new_influxdb_client, connected, opened, panicked, checked) at h)
              | inr (inl (e, failed)) ↦ elim (Bool-cases (contains e "database not found")) [
                | inr other ↦
                    cc (rw (new_influxdb_client, connected, opened, failed, checked, other) at h)
                | inl missing ↦
                    let (results, made_it) = without_results-ok _ (
                      rw (new_influxdb_client, connected, opened, failed, checked, missing) at h) in
                    rw (new_influxdb_client, connected, opened, failed, checked, missing)
                      (created e results failed missing made_it)
              ]
            ]
      ]
