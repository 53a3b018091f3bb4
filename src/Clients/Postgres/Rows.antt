-- ===== src/Clients/Postgres/Rows.antt =====
-- clients/database/postgres/types.go and clients/database/postgres/request_metric.go: the rows of
-- metrics, and the methods of Client, over the queries of the package bun.
use kava_proxy_service.Base.{
  ℕ, suc, String, List, map, get_elem?, Option, none, some, Bool, Error, Result, ok, err, panic,
  failure, ℤ, pos, eq_ℤ, if◌then◌else◌, ◌≡◌, refl,
}
use kava_proxy_service.Exec.{Exec}
use kava_proxy_service.Clients.Metrics.{ProxiedRequestMetric}
use kava_proxy_service.Clients.Database.{StoredMetric, MetricsDatabase}

pub record MetricRow : Type 0 where
  pub id : ℤ
  pub method_name : String
  pub block_number : Option ℤ
  pub response_latency_milliseconds : ℕ
  pub hostname : String
  pub request_ip : String
  pub request_time : ℕ
  pub user_agent : Option String
  pub referer : Option String
  pub origin : Option String
  pub response_backend : String
  pub response_backend_route : String
  pub cache_hit : Bool
  pub part_of_batch : Bool

unfoldable pub to_proxied_request_metric : MetricRow → StoredMetric
to_proxied_request_metric prm =
    let metric : ProxiedRequestMetric = (record {
      method_name = prm.method_name;
      block_number = prm.block_number;
      response_latency_milliseconds = prm.response_latency_milliseconds;
      hostname = prm.hostname;
      request_ip = prm.request_ip;
      request_time = prm.request_time;
      user_agent = prm.user_agent;
      referer = prm.referer;
      origin = prm.origin;
      response_backend = prm.response_backend;
      response_backend_route = prm.response_backend_route;
      cache_hit = prm.cache_hit;
      part_of_batch = prm.part_of_batch;
    }) in
    (prm.id, metric)

unfoldable pub convert_proxied_request_metric : StoredMetric → MetricRow
convert_proxied_request_metric (id, metric) = record {
  id = id;
  method_name = metric.method_name;
  block_number = metric.block_number;
  response_latency_milliseconds = metric.response_latency_milliseconds;
  hostname = metric.hostname;
  request_ip = metric.request_ip;
  request_time = metric.request_time;
  user_agent = metric.user_agent;
  referer = metric.referer;
  origin = metric.origin;
  response_backend = metric.response_backend;
  response_backend_route = metric.response_backend_route;
  cache_hit = metric.cache_hit;
  part_of_batch = metric.part_of_batch;
}

-- What is stored is what is read.
pub row_round_trip :
    (metric : StoredMetric)
    → to_proxied_request_metric (convert_proxied_request_metric metric) ≡ metric
unfolding to_proxied_request_metric convert_proxied_request_metric
row_round_trip metric = refl

-- The queries. scan_and_count gets the cursor and the limit, and gives the rows, a count and an error.
pub record Queries (D : Type 0) : Type 0 where
  pub insert_row : MetricRow → Exec D (Unit {0})
  pub scan_and_count : ℤ → ℤ → D → D × List MetricRow × ℤ × Option Error
  pub count_partitions : Exec D ℤ
  pub last_partition_name : Exec D String
  pub delete_older : ℤ → Exec D (Unit {0})
  pub ping : Exec D (Unit {0})

-- proxiedRequestMetrics[count-1].ID
abbrev pub last_id : List MetricRow → ℤ → Result ℤ
last_id rows (pos (suc n)) = elim (get_elem? rows n) [ none ↦ panic | some row ↦ ok row.id ]
last_id rows _ = panic

-- The cursor of the next page, where 0 is none.
unfoldable pub next_cursor : List MetricRow → ℤ → ℤ → Result ℤ
next_cursor rows count limit = if eq_ℤ count limit then last_id rows count else ok (pos 0)

abbrev pub page : List MetricRow → Option Error → Result ℤ → Result (List StoredMetric × ℤ)
page rows none (ok cursor) = ok (map to_proxied_request_metric rows, cursor)
page rows (some e) (ok cursor) = err e
page rows error (err e) = err e
page rows error panic = panic

-- An error of a query, wrapped by fmt.Errorf.
abbrev pub wrap_query : {A : Type 0} → Result A → Result A
wrap_query (ok a) = ok a
wrap_query (err _) = err (failure "error querying")
wrap_query panic = panic

module _ {D : Type 0} (queries : Queries D) where
  unfoldable pub save_metric_row : ProxiedRequestMetric → Exec D (Unit {0})
  unfolding convert_proxied_request_metric
  save_metric_row metric = queries.insert_row (convert_proxied_request_metric (pos 0, metric))

  unfoldable pub list_metrics : ℤ → ℤ → Exec D (List StoredMetric × ℤ)
  unfolding next_cursor
  list_metrics cursor limit d =
      let (after, rows, count, error) = queries.scan_and_count cursor limit d in
      (after, page rows error (next_cursor rows count limit))

  unfoldable pub count_attached_partitions : Exec D ℤ
  count_attached_partitions d =
      ((queries.count_partitions d).0, wrap_query (queries.count_partitions d).1)

  unfoldable pub last_attached_partition_name : Exec D String
  last_attached_partition_name d =
      ((queries.last_partition_name d).0, wrap_query (queries.last_partition_name d).1)

  -- The Postgres client as a MetricsDatabase, with its Partition.
  unfoldable pub postgres_client : (ℤ → Exec D (Unit {0})) → MetricsDatabase D
  unfolding save_metric_row list_metrics count_attached_partitions last_attached_partition_name
  postgres_client run_partition = record {
    save_proxied_request_metric = save_metric_row;
    list_proxied_request_metrics_with_pagination = list_metrics;
    count_attached_proxied_request_metric_partitions = count_attached_partitions;
    get_last_created_attached_proxied_request_metrics_partition_name = last_attached_partition_name;
    delete_proxied_request_metrics_older_than_n_days = queries.delete_older;
    health_check = queries.ping;
    partition = run_partition;
  }
