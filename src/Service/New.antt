-- ===== src/Service/New.antt =====
-- service/service.go: the parts that New makes from the configuration. sql.OpenDB with its options,
-- redis.NewClient and ethclient.Dial are parameters. The goroutine of the migrations is modelled in
-- Clients/Postgres/Migrations, and the mux is left out.
pub mod Cache
use kava_proxy_service.Base.{String, Bool, ◌+++◌, ℤ, Error, Result, ok, err, panic, if◌then◌else◌}
use kava_proxy_service.Config.Environment.{seconds}
use kava_proxy_service.Config.Reading.{Config}
use kava_proxy_service.Routing.Selection.{RoutingConfig}
use kava_proxy_service.Clients.Database.{MetricsDatabase, new_noop}
use kava_proxy_service.Clients.Redis.{RedisConfig, RedisClient, new_redis_cache, redis_cache}
use kava_proxy_service.CacheMdw.ServiceCache.{CacheConfig, ServiceCache}
use kava_proxy_service.Service.ProxyRequest.{ServingConfig}
use kava_proxy_service.Service.Chain.{ServiceConfig}

-- clients/database/postgres/database.go
pub record DatabaseConfig : Type 0 where
  pub database_name : String
  pub database_endpoint_url : String
  pub database_username : String
  pub database_password : String
  pub read_timeout_seconds : ℤ
  pub write_timeout_seconds : ℤ
  pub database_max_idle_connections : ℤ
  pub database_connection_max_idle_seconds : ℤ
  pub database_max_open_connections : ℤ
  pub ssl_enabled : Bool
  pub query_logging_enabled : Bool
  pub run_database_migrations : Bool

unfoldable pub database_config : Config → DatabaseConfig
database_config config = record {
  database_name = config.database_name;
  database_endpoint_url = config.database_endpoint_url;
  database_username = config.database_user_name;
  database_password = config.database_password;
  read_timeout_seconds = config.database_read_timeout_seconds;
  write_timeout_seconds = config.database_write_timeout_seconds;
  database_max_idle_connections = config.database_max_idle_connections;
  database_connection_max_idle_seconds = config.database_connection_max_idle_seconds;
  database_max_open_connections = config.database_max_open_connections;
  ssl_enabled = config.database_ssl_enabled;
  query_logging_enabled = config.database_query_logging_enabled;
  run_database_migrations = config.run_database_migrations;
}

unfoldable pub cache_config : Config → CacheConfig
cache_config config = record {
  cache_method_has_block_number_param_ttl = config.cache_method_has_block_number_param_ttl;
  cache_method_has_block_hash_param_ttl = config.cache_method_has_block_hash_param_ttl;
  cache_static_method_ttl = config.cache_static_method_ttl;
  cache_method_has_tx_hash_param_ttl = config.cache_method_has_tx_hash_param_ttl;
}

unfoldable pub redis_config : Config → RedisConfig
redis_config config = record {
  address = config.redis_endpoint_url;
  password = config.redis_password;
  db = 0;
}

unfoldable pub create_service_cache :
    {S : Type 0} → (RedisConfig → RedisClient S) → Config → ServiceCache S
unfolding cache_config redis_config new_redis_cache
create_service_cache new_client config = record {
  cache_client = redis_cache (new_redis_cache new_client (redis_config config));
  cache_prefix = config.cache_prefix;
  cache_enabled = config.cache_enabled;
  whitelisted_headers = config.whitelisted_headers;
  config = cache_config config;
}

-- The parts of the configuration that NewProxies and the middlewares read.
unfoldable pub service_config : Config → ServiceConfig
service_config config = record {
  routing = record {
    proxy_backend_host_url_map_parsed = config.proxy_backend_host_url_map_parsed;
    enable_height_based_routing = config.enable_height_based_routing;
    proxy_pruning_backend_host_url_map = config.proxy_pruning_backend_host_url_map;
    enable_sharded_routing = config.enable_sharded_routing;
    proxy_shard_backend_host_url_map = config.proxy_shard_backend_host_url_map;
  };
  serving = record {
    cache_enabled = config.cache_enabled;
    hostname_to_access_control_allow_origin_value_map =
        config.hostname_to_access_control_allow_origin_value_map;
    default_access_control_allow_origin_value = config.default_access_control_allow_origin_value;
  };
  metric_collection_enabled = config.metric_collection_enabled;
}

-- http.Server, without its handler; timeouts are nanoseconds.
pub record Server : Type 0 where
  pub addr : String
  pub write_timeout : ℤ
  pub read_timeout : ℤ

pub record ProxyService (D S : Type 0) : Type 0 where
  pub database : MetricsDatabase D
  pub cache : ServiceCache S
  pub http_proxy : Server
  pub handlers : ServiceConfig

module _ {D S : Type 0} (open_database : DatabaseConfig → MetricsDatabase D)
    (new_client : RedisConfig → RedisClient S) (dial : String → Result (Unit {0})) where
  -- NewClient returns no error.
  unfoldable pub create_database_client : Config → MetricsDatabase D
  unfolding database_config
  create_database_client config = open_database (database_config config)

  abbrev pub service_database : Config → MetricsDatabase D
  service_database config =
      if config.metric_database_enabled then create_database_client config else new_noop

  -- `if err != nil { return ProxyService{}, err }` after ethclient.Dial
  abbrev pub after_dial : Config → Result (Unit {0}) → Result (ProxyService D S)
  after_dial config (err e) = err e
  after_dial config panic = panic
  after_dial config (ok _) =
      let service : ProxyService D S = (record {
        database = service_database config;
        cache = create_service_cache new_client config;
        http_proxy = record {
          addr = ":" +++ config.proxy_service_port;
          write_timeout = seconds config.http_write_timeout_seconds;
          read_timeout = seconds config.http_read_timeout_seconds;
        };
        handlers = service_config config;
      }) in
      ok service

  unfoldable pub new_service : Config → Result (ProxyService D S)
  unfolding create_service_cache create_database_client service_config
  new_service config = after_dial config (dial config.evm_query_service_url)
