-- ===== src/Config/Variables.antt =====
-- config/config.go: the names of the environment's variables, and the fallback values.
use kava_proxy_service.Base.{String, Bool, true, ℤ, pos}

abbrev pub log_level_environment_key : String
log_level_environment_key = "LOG_LEVEL"

abbrev pub default_log_level : String
default_log_level = "INFO"

abbrev pub proxy_backend_host_url_map_environment_key : String
proxy_backend_host_url_map_environment_key = "PROXY_BACKEND_HOST_URL_MAP"

abbrev pub proxy_height_based_routing_enabled_key : String
proxy_height_based_routing_enabled_key = "PROXY_HEIGHT_BASED_ROUTING_ENABLED"

abbrev pub proxy_pruning_backend_host_url_map_environment_key : String
proxy_pruning_backend_host_url_map_environment_key = "PROXY_PRUNING_BACKEND_HOST_URL_MAP"

abbrev pub proxy_sharded_routing_enabled_environment_key : String
proxy_sharded_routing_enabled_environment_key = "PROXY_SHARDED_ROUTING_ENABLED"

abbrev pub proxy_shard_backend_host_url_map_environment_key : String
proxy_shard_backend_host_url_map_environment_key = "PROXY_SHARD_BACKEND_HOST_URL_MAP"

abbrev pub proxy_maximum_batch_size_environment_key : String
proxy_maximum_batch_size_environment_key = "PROXY_MAXIMUM_REQ_BATCH_SIZE"

abbrev pub default_proxy_maximum_batch_size : ℤ
default_proxy_maximum_batch_size = pos 500

abbrev pub proxy_service_port_environment_key : String
proxy_service_port_environment_key = "PROXY_SERVICE_PORT"

abbrev pub database_name_environment_key : String
database_name_environment_key = "DATABASE_NAME"

abbrev pub database_endpoint_url_environment_key : String
database_endpoint_url_environment_key = "DATABASE_ENDPOINT_URL"

abbrev pub database_username_environment_key : String
database_username_environment_key = "DATABASE_USERNAME"

abbrev pub database_password_environment_key : String
database_password_environment_key = "DATABASE_PASSWORD"

abbrev pub database_ssl_enabled_environment_key : String
database_ssl_enabled_environment_key = "DATABASE_SSL_ENABLED"

abbrev pub database_query_logging_enabled_environment_key : String
database_query_logging_enabled_environment_key = "DATABASE_QUERY_LOGGING_ENABLED"

abbrev pub run_database_migrations_environment_key : String
run_database_migrations_environment_key = "RUN_DATABASE_MIGRATIONS"

abbrev pub default_http_read_timeout : ℤ
default_http_read_timeout = pos 30

abbrev pub default_http_write_timeout : ℤ
default_http_write_timeout = pos 60

abbrev pub http_read_timeout_environment_key : String
http_read_timeout_environment_key = "HTTP_READ_TIMEOUT_SECONDS"

abbrev pub http_write_timeout_environment_key : String
http_write_timeout_environment_key = "HTTP_WRITE_TIMEOUT_SECONDS"

abbrev pub metric_compaction_routine_interval_environment_key : String
metric_compaction_routine_interval_environment_key = "METRIC_COMPACTION_ROUTINE_INTERVAL_SECONDS"

abbrev pub metric_collection_enabled_environment_key : String
metric_collection_enabled_environment_key = "METRIC_COLLECTION_ENABLED"

abbrev pub default_metric_collection_enabled : Bool
default_metric_collection_enabled = true

abbrev pub default_metric_compaction_routine_interval_seconds : ℤ
default_metric_compaction_routine_interval_seconds = pos 3600

abbrev pub metric_partitioning_routine_interval_seconds_environment_key : String
metric_partitioning_routine_interval_seconds_environment_key =
    "METRIC_PARTITIONING_ROUTINE_INTERVAL_SECONDS"

abbrev pub default_metric_partitioning_routine_interval_seconds : ℤ
default_metric_partitioning_routine_interval_seconds = pos 86400

abbrev pub metric_partitioning_routine_delay_first_run_seconds_environment_key : String
metric_partitioning_routine_delay_first_run_seconds_environment_key =
    "METRIC_PARTITIONING_ROUTINE_DELAY_FIRST_RUN_SECONDS"

abbrev pub default_metric_partitioning_routine_delay_first_run_seconds : ℤ
default_metric_partitioning_routine_delay_first_run_seconds = pos 10

abbrev pub metric_partitioning_prefill_period_days_environment_key : String
metric_partitioning_prefill_period_days_environment_key = "METRIC_PARTITIONING_PREFILL_PERIOD_DAYS"

abbrev pub default_metric_partitioning_prefill_period_days : ℤ
default_metric_partitioning_prefill_period_days = pos 7

abbrev pub metric_pruning_enabled_environment_key : String
metric_pruning_enabled_environment_key = "METRIC_PRUNING_ENABLED"

abbrev pub default_metric_pruning_enabled : Bool
default_metric_pruning_enabled = true

abbrev pub metric_pruning_routine_interval_seconds_environment_key : String
metric_pruning_routine_interval_seconds_environment_key = "METRIC_PRUNING_ROUTINE_INTERVAL_SECONDS"

abbrev pub metric_database_enabled_environment_key : String
metric_database_enabled_environment_key = "METRIC_DATABASE_ENABLED"

abbrev pub default_metric_database_enabled : Bool
default_metric_database_enabled = true

abbrev pub default_metric_pruning_routine_interval_seconds : ℤ
default_metric_pruning_routine_interval_seconds = pos 86400

abbrev pub metric_pruning_routine_delay_first_run_seconds_environment_key : String
metric_pruning_routine_delay_first_run_seconds_environment_key =
    "METRIC_PRUNING_ROUTINE_DELAY_FIRST_RUN_SECONDS"

abbrev pub default_metric_pruning_routine_delay_first_run_seconds : ℤ
default_metric_pruning_routine_delay_first_run_seconds = pos 10

abbrev pub metric_pruning_max_request_metrics_history_days_environment_key : String
metric_pruning_max_request_metrics_history_days_environment_key =
    "METRIC_PRUNING_MAX_REQUEST_METRICS_HISTORY_DAYS"

abbrev pub default_metric_pruning_max_request_metrics_history_days : ℤ
default_metric_pruning_max_request_metrics_history_days = pos 45

abbrev pub evm_query_service_environment_key : String
evm_query_service_environment_key = "EVM_QUERY_SERVICE_URL"

abbrev pub database_max_idle_connections_environment_key : String
database_max_idle_connections_environment_key = "DATABASE_MAX_IDLE_CONNECTIONS"

abbrev pub default_database_max_idle_connections : ℤ
default_database_max_idle_connections = pos 20

abbrev pub database_connection_max_idle_seconds_environment_key : String
database_connection_max_idle_seconds_environment_key = "DATABASE_CONNECTION_MAX_IDLE_SECONDS"

abbrev pub default_database_connection_max_idle_seconds : ℤ
default_database_connection_max_idle_seconds = pos 5

abbrev pub database_max_open_connections_environment_key : String
database_max_open_connections_environment_key = "DATABASE_MAX_OPEN_CONNECTIONS"

abbrev pub default_database_max_open_connections : ℤ
default_database_max_open_connections = pos 100

abbrev pub database_read_timeout_seconds_environment_key : String
database_read_timeout_seconds_environment_key = "DATABASE_READ_TIMEOUT_SECONDS"

abbrev pub default_database_read_timeout_seconds : ℤ
default_database_read_timeout_seconds = pos 60

abbrev pub database_write_timeout_seconds_environment_key : String
database_write_timeout_seconds_environment_key = "DATABASE_WRITE_TIMEOUT_SECONDS"

abbrev pub default_database_write_timeout_seconds : ℤ
default_database_write_timeout_seconds = pos 10

abbrev pub cache_enabled_environment_key : String
cache_enabled_environment_key = "CACHE_ENABLED"

abbrev pub redis_endpoint_url_environment_key : String
redis_endpoint_url_environment_key = "REDIS_ENDPOINT_URL"

abbrev pub redis_password_environment_key : String
redis_password_environment_key = "REDIS_PASSWORD"

abbrev pub cache_method_has_block_number_param_ttl_environment_key : String
cache_method_has_block_number_param_ttl_environment_key =
    "CACHE_METHOD_HAS_BLOCK_NUMBER_PARAM_TTL_SECONDS"

abbrev pub cache_method_has_block_hash_param_ttl_environment_key : String
cache_method_has_block_hash_param_ttl_environment_key =
    "CACHE_METHOD_HAS_BLOCK_HASH_PARAM_TTL_SECONDS"

abbrev pub cache_static_method_ttl_environment_key : String
cache_static_method_ttl_environment_key = "CACHE_STATIC_METHOD_TTL_SECONDS"

abbrev pub cache_method_has_tx_hash_param_ttl_environment_key : String
cache_method_has_tx_hash_param_ttl_environment_key = "CACHE_METHOD_HAS_TX_HASH_PARAM_TTL_SECONDS"

abbrev pub cache_prefix_environment_key : String
cache_prefix_environment_key = "CACHE_PREFIX"

abbrev pub whitelisted_headers_environment_key : String
whitelisted_headers_environment_key = "WHITELISTED_HEADERS"

abbrev pub default_access_control_allow_origin_value_environment_key : String
default_access_control_allow_origin_value_environment_key =
    "DEFAULT_ACCESS_CONTROL_ALLOW_ORIGIN_VALUE"

abbrev pub hostname_to_access_control_allow_origin_value_map_environment_key : String
hostname_to_access_control_allow_origin_value_map_environment_key =
    "HOSTNAME_TO_ACCESS_CONTROL_ALLOW_ORIGIN_VALUE_MAP"
