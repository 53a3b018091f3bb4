-- ===== src/Witnesses/Operations.antt =====
-- Examples for the routines and the handlers of the service's own endpoints.
use kava_proxy_service.Base.{
  Dict, String, ◌+++◌, lookup, ℕ, [], none, some, true, not, ◌&&◌, ◌||◌, Error, failure, ok, err,
  pos, ◌≡◌, ◌⊎◌, ◌↔◌, inr, refl, if◌then◌else◌,
}
use kava_proxy_service.Http.{ResponseWriter, server_writer}
use kava_proxy_service.Clients.InMemory.{InMemoryCache, in_memory_cache, healthcheck}
use kava_proxy_service.Clients.Database.{MetricsDatabase}
use kava_proxy_service.Clients.Postgres.Partitions.{partition}
use kava_proxy_service.Config.Reading.{read_config}
use kava_proxy_service.Routines.Ticks.{MetricPartitioningRoutine}
use kava_proxy_service.Routines.Partitioning.{
  Goroutines, start, run_partition, Step, wake, first_run_err, sending_first, not_started, here,
  next,
}
use kava_proxy_service.Routines.Partitioning.Progress.{first_error_blocks}
use kava_proxy_service.Entry.{start_metric_partitioning_routine}
use kava_proxy_service.Service.Endpoints.{Endpoint, create_healthcheck_handler}
use kava_proxy_service.Service.Endpoints.Health.{is_ok, health_status}
use kava_proxy_service.Service.Client.{ProxyServiceClient, Transport, get_database_status}
use kava_proxy_service.Service.Client.Status.{sent, served, status_of, status_round_trip}
use kava_proxy_service.Config.Environment.{seconds, env_or_default_bool}
use kava_proxy_service.Service.New.{
  ProxyService, create_service_cache, create_database_client, service_config, new_service,
}
use kava_proxy_service.Service.New.Cache.{IsSound, new_service-IsSound}
use kava_proxy_service.Witnesses.Samples.{sample_cache, empty_store, new_writer}
use kava_proxy_service.Witnesses.Settings.{sample_system, sample_valid}
use kava_proxy_service.Witnesses.Partitions.{
  sample_sql, print, sample_redis, sample_redis-RedisLaws,
}

-- A database whose partitions are those of the sample statements.
abbrev sample_database : MetricsDatabase (ℕ × ℕ)
sample_database = record {
  save_proxied_request_metric = λ m d. (d, ok tt);
  list_proxied_request_metrics_with_pagination = λ c l d. (d, ok ([], pos 0));
  count_attached_proxied_request_metric_partitions = λ d. (d, ok (pos 7));
  get_last_created_attached_proxied_request_metrics_partition_name = λ d. (d, ok "last");
  delete_proxied_request_metrics_older_than_n_days = λ n d. (d, ok tt);
  health_check = λ d. (d, ok tt);
  partition = λ days d. partition sample_sql print print 5 days d;
}

abbrev sample_routine : MetricPartitioningRoutine (ℕ × ℕ)
sample_routine = start_metric_partitioning_routine (read_config sample_system) sample_database

-- A database that is not reachable.
abbrev down : Error
down = failure "down"

abbrev broken_routine : MetricPartitioningRoutine (ℕ × ℕ)
broken_routine = record {
  interval = pos 60;
  delay_first_run = pos 10;
  prefill_period_days = pos 7;
  db = record sample_database { partition = λ days d. (d, err down) };
}

abbrev blocked : Goroutines (ℕ × ℕ)
blocked = record {
  caller = sending_first down;
  ticker = not_started;
  database = (0, 0);
  logged = [];
}

blocks_example :
    (blocked.logged ≡ [])
    × (blocked.ticker ≡ not_started)
    × ((blocked.database ≡ (0, 0)) ⊎ (blocked.database ≡ (run_partition broken_routine (0, 0)).0))
    × ((blocked.caller ≡ sending_first down)
        ↔ ((t : Goroutines (ℕ × ℕ)) → ¬ Step broken_routine blocked t))
blocks_example =
    first_error_blocks broken_routine (0, 0) blocked down refl
      (next (next here (wake (start (0, 0)) refl)) (first_run_err _ down refl refl))

abbrev sample_endpoint : Endpoint (ℕ × ℕ) InMemoryCache ResponseWriter
sample_endpoint = record { database = (0, 0); store = empty_store; writer = new_writer }

cache_healthy : (sample_cache.cache_client.healthcheck empty_store).1 ≡ ok tt
unfolding in_memory_cache healthcheck
cache_healthy = refl

health_example :
    let after =
      create_healthcheck_handler
        (λ e. "error")
        sample_database
        sample_cache
        server_writer
        sample_endpoint in
    let healthy =
      is_ok (sample_database.health_check (0, 0)).1
      && (not sample_cache.cache_enabled
          || is_ok (sample_cache.cache_client.healthcheck empty_store).1) in
    (after.1 ≡ ok tt) × (after.0.writer.status ≡ some (if healthy then 200 else 500))
health_example =
    health_status (λ e. "error") sample_database sample_cache sample_endpoint (λ e. cc)
      (λ e. let h = cache_healthy in cc) refl

abbrev sample_client : ProxyServiceClient
sample_client = record {
  config = record { proxy_service_hostname = "http://proxy"; debug_log_responses = true };
  debug_log_responses = true;
}

-- A network on which the handler answers.
abbrev sample_transport : Transport ℕ
sample_transport = record {
  encode_nil = some "null";
  new_request_error = λ method url. none;
  do_request = λ r n. (
    n,
    inr (
        sent
          (served (λ e. "error") sample_database sample_cache (λ r. some "{}") (0, 0) empty_store)),
  );
  decode_status = λ s. inr (status_of (pos 7) "last");
  print_number = print;
}

status_example :
    get_database_status sample_transport sample_client 3 ≡ (3, inr (status_of (pos 7) "last"))
status_example =
    status_round_trip (λ e. "error") sample_database sample_cache (λ r. some "{}") (0, 0)
      empty_store sample_transport sample_client 3 3 (pos 7) "last" "{}" "null" refl refl refl refl
      refl refl refl

abbrev made_service : ProxyService (ℕ × ℕ) (Dict String)
made_service = record {
  database = sample_database;
  cache = create_service_cache (λ c. sample_redis.client) (read_config sample_system);
  http_proxy = record {
    addr = ":" +++ (read_config sample_system).proxy_service_port;
    write_timeout = seconds (read_config sample_system).http_write_timeout_seconds;
    read_timeout = seconds (read_config sample_system).http_read_timeout_seconds;
  };
  handlers = service_config (read_config sample_system);
}

service_made :
    new_service
      (λ c. sample_database)
      (λ c. sample_redis.client)
      (λ url. ok tt)
      (read_config sample_system)
    ≡ ok made_service
unfolding new_service create_database_client read_config env_or_default_bool lookup
service_made = refl

IsSound-example : IsSound made_service.cache
IsSound-example =
    new_service-IsSound sample_system (λ c. sample_redis.client) (read_config sample_system)
      (λ c. sample_redis-RedisLaws) (λ c. sample_database) (λ url. ok tt) made_service sample_valid
      service_made
