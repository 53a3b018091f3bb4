-- ===== src/Service/New/Cache.antt =====
-- The cache of a service that is made from a valid configuration.
use kava_proxy_service.Base.{[], String, ok, err, panic, Result, Lacks, ◌≡◌, ◌≢◌, subst, ap}
use kava_proxy_service.Config.Environment.{System}
use kava_proxy_service.Config.Reading.{Config}
use kava_proxy_service.Config.Validation.{validate}
use kava_proxy_service.Config.Validation.Accepted.{validate_iff}
use kava_proxy_service.Clients.CacheClient.{CacheLaws}
use kava_proxy_service.Clients.Database.{MetricsDatabase}
use kava_proxy_service.Clients.Redis.{RedisConfig, RedisClient, new_redis_cache}
use kava_proxy_service.Clients.Redis.Laws.{RedisLaws, redis_cache-CacheLaws}
use kava_proxy_service.CacheMdw.ServiceCache.{ServiceCache}
use kava_proxy_service.CacheMdw.Cacheable.{HasValidTtls}
use kava_proxy_service.Service.New.{
  DatabaseConfig, ProxyService, create_service_cache, cache_config, redis_config, after_dial,
  new_service,
}

-- What the theorems on the cache of responses ask of it.
pub record IsSound {S : Type 0} (c : ServiceCache S) : Type 0 where
  pub laws : CacheLaws c.cache_client
  pub ttls : HasValidTtls c.config
  pub prefix : Lacks b':' c.cache_prefix
  pub prefix_given : c.cache_prefix ≢ ""

ok_injective : {A : Type 0} (x y : A) → ok x ≡ ok y → x ≡ y
ok_injective x y e = cc

module _ {S : Type 0} (sys : System) (new_client : RedisConfig → RedisClient S) (config : Config)
    (server : (cfg : RedisConfig) → RedisLaws (new_client cfg)) where
  created-IsSound : validate sys config ≡ ok [] → IsSound (create_service_cache new_client config)
  unfolding create_service_cache cache_config new_redis_cache redis_config
  created-IsSound e =
      let v = (validate_iff sys config).0 e in
      record {
        laws =
            redis_cache-CacheLaws (new_redis_cache new_client (redis_config config))
              (server (redis_config config));
        ttls = record {
          by_block_number = v.by_block_number;
          by_block_hash = v.by_block_hash;
          static = v.static;
          by_tx_hash = v.by_tx_hash;
        };
        prefix = v.prefix;
        prefix_given = v.prefix_given;
      }

  -- The cache of a service that New makes from a valid configuration, over a server of Redis that does
  -- as it is documented, meets what the response cache relies on: it obeys the laws of a cache, all
  -- its times to live are valid, and its prefix is not empty and has no colon.
  pub new_service-IsSound :
      {D : Type 0} (open_database : DatabaseConfig → MetricsDatabase D)
      (dial : String → Result (Unit {0})) (service : ProxyService D S)
      → validate sys config ≡ ok []
      → new_service open_database new_client dial config ≡ ok service
      → IsSound service.cache
  unfolding new_service
  new_service-IsSound open_database dial service e made =
      dialed (dial config.evm_query_service_url) service made
    where
      dialed :
          (r : Result (Unit {0})) (service : ProxyService _ S)
          → after_dial open_database new_client dial config r ≡ ok service
          → IsSound service.cache
      dialed (ok a) service made =
          let same : create_service_cache new_client config ≡ service.cache =
            ap (λ p. p.cache) (ok_injective _ service made) in
          subst IsSound same (created-IsSound e)
      dialed (err x) service made = cc
      dialed panic service made = cc
