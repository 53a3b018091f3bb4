-- ===== src/Service/Endpoints.antt =====
-- service/handlers.go and service/api.go: the handlers of /healthcheck, /servicecheck and
-- /status/database. The text of an error and the JSON of the status are parameters.
pub mod Health
use kava_proxy_service.Base.{
  ℕ, String, List, [], ◌∷◌, ◌++◌, Option, none, some, Bool, Error, Result, ok, err, panic, ℤ, ◌+++◌,
  join, if◌then◌else◌,
}
use kava_proxy_service.Exec.{Exec, pure, ◌>>=◌, ◌>>◌}
use kava_proxy_service.Http.{Writer, header_set}
use kava_proxy_service.Clients.Database.{MetricsDatabase}
use kava_proxy_service.CacheMdw.ServiceCache.{ServiceCache}

-- The state of the database and of the cache's store, and the writer of the response.
pub record Endpoint (D S W : Type 0) : Type 0 where
  pub database : D
  pub store : S
  pub writer : W

pub record DatabaseStatusResponse : Type 0 where
  pub latest_proxied_request_metric_partition_table_name : String
  pub total_proxied_request_metric_partitions : ℤ

-- Runs a call, whose error becomes its value.
abbrev pub caught : {A : Type 0} → Result A → Result (Option Error)
caught (ok _) = ok none
caught (err e) = ok (some e)
caught panic = panic

abbrev pub add_message : String → Option Error → List String
add_message message none = []
add_message message (some _) = message ∷ []

module _ {D S W : Type 0} (error_text : Error → String) (db : MetricsDatabase D)
    (cache : ServiceCache S) (o : Writer W) where
  abbrev pub on_database : {A : Type 0} → Exec D A → Exec (Endpoint D S W) A
  on_database m s = (record s { database = (m s.database).0 }, (m s.database).1)

  -- The error of the database's health check.
  unfoldable pub database_error : Exec (Endpoint D S W) (Option Error)
  database_error s = (
    record s { database = (db.health_check s.database).0 },
    caught (db.health_check s.database).1,
  )

  -- The error of the cache's health check, if the cache is enabled.
  unfoldable pub cache_error : Exec (Endpoint D S W) (Option Error)
  cache_error s =
      if cache.cache_enabled
      then (
        record s { store = (cache.cache_client.healthcheck s.store).0 },
        caught (cache.cache_client.healthcheck s.store).1,
      )
      else (s, ok none)

  abbrev pub cache_message : Option Error → List String
  cache_message none = []
  cache_message (some e) = ("proxy service unable to connect to cache: " +++ error_text e) ∷ []

  abbrev pub write : (W → W) → Exec (Endpoint D S W) (Unit {0})
  write f s = (record s { writer = f s.writer }, ok tt)

  -- The response to the joined errors, of which errors.Join puts each on a line.
  unfoldable pub respond : List String → Exec (Endpoint D S W) (Unit {0})
  respond [] = do write (o.write_status 200); write (o.write_body "proxy service is healthy")
  respond (message ∷ messages) = do
    write (o.write_status 500)
    write (o.write_body (join "\n" (message ∷ messages)))

  unfoldable pub create_healthcheck_handler : Exec (Endpoint D S W) (Unit {0})
  unfolding database_error cache_error respond
  create_healthcheck_handler = do
    db_error ← database_error
    error ← cache_error
    respond
        (add_message "proxy service unable to connect to database" db_error ++ cache_message error)

  unfoldable pub create_servicecheck_handler : Exec (Endpoint D S W) (Unit {0})
  create_servicecheck_handler = do
    write (o.write_status 200)
    write (o.write_body "proxy service is in service")

  module _ (marshal_status : DatabaseStatusResponse → Option String) where
    abbrev pub write_encoded : Option String → Exec (Endpoint D S W) (Unit {0})
    write_encoded none s = (s, ok tt)
    write_encoded (some text) s = write (o.write_body (text +++ "\n")) s

    -- The error of the encoder is only logged.
    unfoldable pub marshal_json_response : DatabaseStatusResponse → Exec (Endpoint D S W) (Unit {0})
    marshal_json_response response = do
      write (o.change_header (λ h. header_set h "Content-Type" "application/json"))
      write_encoded (marshal_status response)

    -- `if err != nil { w.WriteHeader(500); return }`
    abbrev pub or_error :
        {A : Type 0}
        → (A → Exec (Endpoint D S W) (Unit {0}))
        → Endpoint D S W
        → Result A
        → Endpoint D S W × Result (Unit {0})
    or_error next s (ok a) = next a s
    or_error next s (err e) = write (o.write_status 500) s
    or_error next s panic = (s, panic)

    unfoldable pub send_status : ℤ → String → Exec (Endpoint D S W) (Unit {0})
    unfolding marshal_json_response
    send_status count name = do
      write (o.write_status 200)
      marshal_json_response (record {
        latest_proxied_request_metric_partition_table_name = name;
        total_proxied_request_metric_partitions = count;
      })

    -- The name of the last partition, and then the response.
    unfoldable pub with_count : ℤ → Exec (Endpoint D S W) (Unit {0})
    unfolding send_status
    with_count count s =
        let named =
          db.get_last_created_attached_proxied_request_metrics_partition_name s.database in
        or_error (send_status count) (record s { database = named.0 }) named.1

    unfoldable pub create_database_status_handler : Exec (Endpoint D S W) (Unit {0})
    unfolding with_count
    create_database_status_handler s =
        let counted = db.count_attached_proxied_request_metric_partitions s.database in
        or_error with_count (record s { database = counted.0 }) counted.1
