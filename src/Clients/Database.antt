-- ===== src/Clients/Database.antt =====
-- clients/database/interface.go: the interface MetricsDatabase over the state of the database, and
-- clients/database/noop/database.go: the database that does nothing. A metric that is read has an ID.
use kava_proxy_service.Base.{String, List, [], ℤ, pos}
use kava_proxy_service.Exec.{Exec, pure}
use kava_proxy_service.Clients.Metrics.{ProxiedRequestMetric}

-- The ID and the other fields of a metric.
abbrev pub StoredMetric : Type 0
StoredMetric = ℤ × ProxiedRequestMetric

pub record MetricsDatabase (D : Type 0) : Type 0 where
  pub save_proxied_request_metric : ProxiedRequestMetric → Exec D (Unit {0})
  pub list_proxied_request_metrics_with_pagination : ℤ → ℤ → Exec D (List StoredMetric × ℤ)
  pub count_attached_proxied_request_metric_partitions : Exec D ℤ
  pub get_last_created_attached_proxied_request_metrics_partition_name : Exec D String
  pub delete_proxied_request_metrics_older_than_n_days : ℤ → Exec D (Unit {0})
  pub health_check : Exec D (Unit {0})
  pub partition : ℤ → Exec D (Unit {0})

-- noop.New()
unfoldable pub new_noop : {D : Type 0} → MetricsDatabase D
new_noop = record {
  save_proxied_request_metric = λ metric. pure tt;
  list_proxied_request_metrics_with_pagination = λ cursor limit. pure ([], pos 0);
  count_attached_proxied_request_metric_partitions = pure (pos 0);
  get_last_created_attached_proxied_request_metrics_partition_name = pure "";
  delete_proxied_request_metrics_older_than_n_days = λ n. pure tt;
  health_check = pure tt;
  partition = λ days. pure tt;
}
