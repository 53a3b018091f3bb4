-- ===== src/Config/Reading.antt =====
-- config/config.go: Config and ReadConfig. The errors of the parsers are dropped, and Validate parses
-- the raw maps again.
pub mod TimesToLive
use kava_proxy_service.Base.{
  String, List, [], Bool, true, false, ℤ, pos, str_eq, split, Dict, if◌then◌else◌,
}
use kava_proxy_service.Config.Intervals.{Url, IntervalUrlMap}
use kava_proxy_service.Config.Environment.{
  System, getenv, env_or_default, env_or_default_bool, env_or_default_int64, env_or_default_int,
  seconds,
}
use kava_proxy_service.Config.HostMaps.{
  parse_raw_proxy_backend_host_url_map, parse_raw_hostname_to_header_value_map,
}
use kava_proxy_service.Config.Shards.{parse_raw_shard_routing_backend_host_url_map}
use kava_proxy_service.Config.Variables.{
  cache_enabled_environment_key, cache_method_has_block_hash_param_ttl_environment_key,
  cache_method_has_block_number_param_ttl_environment_key,
  cache_method_has_tx_hash_param_ttl_environment_key, cache_prefix_environment_key,
  cache_static_method_ttl_environment_key, database_connection_max_idle_seconds_environment_key,
  database_endpoint_url_environment_key, database_max_idle_connections_environment_key,
  database_max_open_connections_environment_key, database_name_environment_key,
  database_password_environment_key, database_query_logging_enabled_environment_key,
  database_read_timeout_seconds_environment_key, database_ssl_enabled_environment_key,
  database_username_environment_key, database_write_timeout_seconds_environment_key,
  default_access_control_allow_origin_value_environment_key,
  default_database_connection_max_idle_seconds, default_database_max_idle_connections,
  default_database_max_open_connections, default_database_read_timeout_seconds,
  default_database_write_timeout_seconds, default_http_read_timeout, default_http_write_timeout,
  default_log_level, default_metric_collection_enabled,
  default_metric_compaction_routine_interval_seconds, default_metric_database_enabled,
  default_metric_partitioning_prefill_period_days,
  default_metric_partitioning_routine_delay_first_run_seconds,
  default_metric_partitioning_routine_interval_seconds, default_metric_pruning_enabled,
  default_metric_pruning_max_request_metrics_history_days,
  default_metric_pruning_routine_delay_first_run_seconds,
  default_metric_pruning_routine_interval_seconds, default_proxy_maximum_batch_size,
  evm_query_service_environment_key,
  hostname_to_access_control_allow_origin_value_map_environment_key,
  http_read_timeout_environment_key, http_write_timeout_environment_key, log_level_environment_key,
  metric_collection_enabled_environment_key, metric_compaction_routine_interval_environment_key,
  metric_database_enabled_environment_key, metric_partitioning_prefill_period_days_environment_key,
  metric_partitioning_routine_delay_first_run_seconds_environment_key,
  metric_partitioning_routine_interval_seconds_environment_key,
  metric_pruning_enabled_environment_key,
  metric_pruning_max_request_metrics_history_days_environment_key,
  metric_pruning_routine_delay_first_run_seconds_environment_key,
  metric_pruning_routine_interval_seconds_environment_key,
  proxy_backend_host_url_map_environment_key, proxy_height_based_routing_enabled_key,
  proxy_maximum_batch_size_environment_key, proxy_pruning_backend_host_url_map_environment_key,
  proxy_service_port_environment_key, proxy_shard_backend_host_url_map_environment_key,
  redis_endpoint_url_environment_key, redis_password_environment_key,
  run_database_migrations_environment_key, whitelisted_headers_environment_key,
}

pub record Config : Type 0 where
  pub proxy_service_port : String
  pub log_level : String
  pub proxy_backend_host_url_map_raw : String
  pub proxy_backend_host_url_map_parsed : Dict Url
  pub enable_height_based_routing : Bool
  pub proxy_pruning_backend_host_url_map_raw : String
  pub proxy_pruning_backend_host_url_map : Dict Url
  pub enable_sharded_routing : Bool
  pub proxy_shard_backend_host_url_map_raw : String
  pub proxy_shard_backend_host_url_map : Dict IntervalUrlMap
  pub proxy_maximum_batch_size : ℤ
  pub evm_query_service_url : String
  pub database_name : String
  pub database_endpoint_url : String
  pub database_user_name : String
  pub database_password : String
  pub database_read_timeout_seconds : ℤ
  pub database_write_timeout_seconds : ℤ
  pub database_ssl_enabled : Bool
  pub database_query_logging_enabled : Bool
  pub database_max_idle_connections : ℤ
  pub database_connection_max_idle_seconds : ℤ
  pub database_max_open_connections : ℤ
  pub run_database_migrations : Bool
  pub http_read_timeout_seconds : ℤ
  pub http_write_timeout_seconds : ℤ
  pub metric_compaction_routine_interval : ℤ
  pub metric_collection_enabled : Bool
  pub metric_partitioning_routine_interval : ℤ
  pub metric_partitioning_routine_delay_first_run : ℤ
  pub metric_partitioning_prefill_period_days : ℤ
  pub metric_pruning_enabled : Bool
  pub metric_pruning_routine_interval : ℤ
  pub metric_pruning_routine_delay_first_run : ℤ
  pub metric_pruning_max_request_metrics_history_days : ℤ
  pub metric_database_enabled : Bool
  pub cache_enabled : Bool
  pub redis_endpoint_url : String
  pub redis_password : String
  pub cache_method_has_block_number_param_ttl : ℤ
  pub cache_method_has_block_hash_param_ttl : ℤ
  pub cache_static_method_ttl : ℤ
  pub cache_method_has_tx_hash_param_ttl : ℤ
  pub cache_prefix : String
  pub whitelisted_headers : List String
  pub default_access_control_allow_origin_value : String
  pub hostname_to_access_control_allow_origin_value_map_raw : String
  pub hostname_to_access_control_allow_origin_value_map : Dict String

unfoldable pub read_config : System → Config
read_config sys =
    let raw_proxy_backend_host_url_map = getenv sys proxy_backend_host_url_map_environment_key in
    let raw_proxy_pruning_backend_host_url_map =
      getenv sys proxy_pruning_backend_host_url_map_environment_key in
    let raw_proxy_sharded_backend_host_url_map =
      getenv sys proxy_shard_backend_host_url_map_environment_key in
    let whitelisted_headers = getenv sys whitelisted_headers_environment_key in
    let raw_hostname_to_access_control_allow_origin_value_map =
      getenv sys hostname_to_access_control_allow_origin_value_map_environment_key in
    record {
      proxy_service_port = getenv sys proxy_service_port_environment_key;
      log_level = env_or_default sys log_level_environment_key default_log_level;
      proxy_backend_host_url_map_raw = raw_proxy_backend_host_url_map;
      proxy_backend_host_url_map_parsed =
          (parse_raw_proxy_backend_host_url_map sys raw_proxy_backend_host_url_map).0;
      enable_height_based_routing =
          env_or_default_bool sys proxy_height_based_routing_enabled_key false;
      proxy_pruning_backend_host_url_map_raw = raw_proxy_pruning_backend_host_url_map;
      proxy_pruning_backend_host_url_map =
          (parse_raw_proxy_backend_host_url_map sys raw_proxy_pruning_backend_host_url_map).0;
      enable_sharded_routing = env_or_default_bool sys proxy_height_based_routing_enabled_key false;
      proxy_shard_backend_host_url_map_raw = raw_proxy_sharded_backend_host_url_map;
      proxy_shard_backend_host_url_map =
          (parse_raw_shard_routing_backend_host_url_map sys
            raw_proxy_sharded_backend_host_url_map).0;
      proxy_maximum_batch_size =
          env_or_default_int sys proxy_maximum_batch_size_environment_key
            default_proxy_maximum_batch_size;
      database_name = getenv sys database_name_environment_key;
      database_endpoint_url = getenv sys database_endpoint_url_environment_key;
      database_user_name = getenv sys database_username_environment_key;
      database_password = getenv sys database_password_environment_key;
      database_ssl_enabled = env_or_default_bool sys database_ssl_enabled_environment_key false;
      database_read_timeout_seconds =
          env_or_default_int64 sys database_read_timeout_seconds_environment_key
            default_database_read_timeout_seconds;
      database_write_timeout_seconds =
          env_or_default_int64 sys database_write_timeout_seconds_environment_key
            default_database_write_timeout_seconds;
      database_query_logging_enabled =
          env_or_default_bool sys database_query_logging_enabled_environment_key true;
      run_database_migrations =
          env_or_default_bool sys run_database_migrations_environment_key false;
      database_max_idle_connections =
          env_or_default_int64 sys database_max_idle_connections_environment_key
            default_database_max_idle_connections;
      database_connection_max_idle_seconds =
          env_or_default_int64 sys database_connection_max_idle_seconds_environment_key
            default_database_connection_max_idle_seconds;
      database_max_open_connections =
          env_or_default_int64 sys database_max_open_connections_environment_key
            default_database_max_open_connections;
      http_read_timeout_seconds =
          env_or_default_int64 sys http_read_timeout_environment_key default_http_read_timeout;
      http_write_timeout_seconds =
          env_or_default_int64 sys http_write_timeout_environment_key default_http_write_timeout;
      metric_compaction_routine_interval = seconds (
          env_or_default_int sys metric_compaction_routine_interval_environment_key
            default_metric_compaction_routine_interval_seconds);
      evm_query_service_url = getenv sys evm_query_service_environment_key;
      metric_collection_enabled =
          env_or_default_bool sys metric_collection_enabled_environment_key
            default_metric_collection_enabled;
      metric_partitioning_routine_interval = seconds (
          env_or_default_int sys metric_partitioning_routine_interval_seconds_environment_key
            default_metric_partitioning_routine_interval_seconds);
      metric_partitioning_routine_delay_first_run = seconds (
          env_or_default_int sys metric_partitioning_routine_delay_first_run_seconds_environment_key
            default_metric_partitioning_routine_delay_first_run_seconds);
      metric_partitioning_prefill_period_days =
          env_or_default_int sys metric_partitioning_prefill_period_days_environment_key
            default_metric_partitioning_prefill_period_days;
      metric_pruning_enabled =
          env_or_default_bool sys metric_pruning_enabled_environment_key
            default_metric_pruning_enabled;
      metric_pruning_routine_interval = seconds (
          env_or_default_int sys metric_pruning_routine_interval_seconds_environment_key
            default_metric_pruning_routine_interval_seconds);
      metric_pruning_routine_delay_first_run = seconds (
          env_or_default_int sys metric_pruning_routine_delay_first_run_seconds_environment_key
            default_metric_pruning_routine_delay_first_run_seconds);
      metric_pruning_max_request_metrics_history_days =
          env_or_default_int sys metric_pruning_max_request_metrics_history_days_environment_key
            default_metric_pruning_max_request_metrics_history_days;
      metric_database_enabled =
          env_or_default_bool sys metric_database_enabled_environment_key
            default_metric_database_enabled;
      cache_enabled = env_or_default_bool sys cache_enabled_environment_key false;
      redis_endpoint_url = getenv sys redis_endpoint_url_environment_key;
      redis_password = getenv sys redis_password_environment_key;
      cache_method_has_block_number_param_ttl =
          seconds (
            env_or_default_int sys cache_method_has_block_number_param_ttl_environment_key (pos 0));
      cache_method_has_block_hash_param_ttl =
          seconds
            (env_or_default_int sys cache_method_has_block_hash_param_ttl_environment_key (pos 0));
      cache_static_method_ttl =
          seconds (env_or_default_int sys cache_static_method_ttl_environment_key (pos 0));
      cache_method_has_tx_hash_param_ttl =
          seconds
            (env_or_default_int sys cache_method_has_tx_hash_param_ttl_environment_key (pos 0));
      cache_prefix = getenv sys cache_prefix_environment_key;
      whitelisted_headers =
          if str_eq whitelisted_headers "" then [] else split b',' whitelisted_headers;
      default_access_control_allow_origin_value =
          getenv sys default_access_control_allow_origin_value_environment_key;
      hostname_to_access_control_allow_origin_value_map_raw =
          raw_hostname_to_access_control_allow_origin_value_map;
      hostname_to_access_control_allow_origin_value_map =
          (parse_raw_hostname_to_header_value_map
            raw_hostname_to_access_control_allow_origin_value_map).0;
    }
