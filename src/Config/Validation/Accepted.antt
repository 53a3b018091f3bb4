-- ===== src/Config/Validation/Accepted.antt =====
-- Which configurations Validate accepts.

use kava_proxy_service.Base.{
  [], ◌∷◌, ◌++◌, none, Lacks, contains_iff, Any, failure, Result, ok, err, panic, ◌≡◌, ◌≢◌, ◌↔◌,
  ◌⊎◌, refl, ap,
}
use kava_proxy_service.Config.Environment.{System}
use kava_proxy_service.Config.HostMaps.{
  parse_raw_proxy_backend_host_url_map, parse_raw_hostname_to_header_value_map,
}
use kava_proxy_service.Config.Shards.{parse_raw_shard_routing_backend_host_url_map}
use kava_proxy_service.Config.Reading.{Config}
use kava_proxy_service.Clients.CacheClient.{IsTtl}
use kava_proxy_service.Config.Validation.Optional.{optional_url_map_iff, optional_header_map_iff}
use kava_proxy_service.Config.Validation.Checks.{
  IsPrefill, ContainsHosts, append-nil_iff, error_if-nil_iff, error_with-nil_iff,
  check_ttl_config-nil_iff, IsPrefill-iff, has_char_iff, ContainsHosts-iff, cons_ne, both, through,
  not-eq-false_iff, is_some_iff, not_empty_iff,
}
use kava_proxy_service.Config.Validation.{
  valid_log_levels, unless_empty, validate_host_url_map, error_with, with_shard_error,
  errors_before_shards, ttl_errors, errors_after_shards, validate,
  validate_shard_routing_backend_host_url_map,
}

-- What Validate accepts.
pub record IsValid (sys : System) (config : Config) : Type 0 where
  pub level : Any (λ l. config.log_level ≡ l) valid_log_levels
  pub backends :
      (parse_raw_proxy_backend_host_url_map sys config.proxy_backend_host_url_map_raw).1 ≡ []
  pub pruning :
      (config.proxy_pruning_backend_host_url_map_raw ≡ "")
      ⊎ ((parse_raw_proxy_backend_host_url_map sys config.proxy_pruning_backend_host_url_map_raw).1
          ≡ [])
  pub shards :
      (parse_raw_shard_routing_backend_host_url_map sys
        config.proxy_shard_backend_host_url_map_raw).1
      ≡ ok tt
  pub fallbacks :
      ContainsHosts config.proxy_pruning_backend_host_url_map
        config.proxy_backend_host_url_map_parsed
  pub port : sys.atoi config.proxy_service_port ≢ none
  pub prefill : IsPrefill config.metric_partitioning_prefill_period_days
  pub redis : config.redis_endpoint_url ≢ ""
  pub by_block_number : IsTtl config.cache_method_has_block_number_param_ttl
  pub by_block_hash : IsTtl config.cache_method_has_block_hash_param_ttl
  pub static : IsTtl config.cache_static_method_ttl
  pub by_tx_hash : IsTtl config.cache_method_has_tx_hash_param_ttl
  pub prefix : Lacks b':' config.cache_prefix
  pub prefix_given : config.cache_prefix ≢ ""
  pub headers :
      (config.hostname_to_access_control_allow_origin_value_map_raw ≡ "")
      ⊎ ((parse_raw_hostname_to_header_value_map
            config.hostname_to_access_control_allow_origin_value_map_raw).1
          ≡ [])

module _ (sys : System) (config : Config) where
  before_shards_iff : (errors_before_shards sys config ≡ []) ↔ (
      Any (λ l. config.log_level ≡ l) valid_log_levels
      × (((parse_raw_proxy_backend_host_url_map sys config.proxy_backend_host_url_map_raw).1 ≡ [])
          × ((config.proxy_pruning_backend_host_url_map_raw ≡ "")
              ⊎ ((parse_raw_proxy_backend_host_url_map sys
                    config.proxy_pruning_backend_host_url_map_raw).1
                  ≡ []))))
  unfolding errors_before_shards validate_host_url_map unless_empty
  before_shards_iff =
      both _ _
        (through (error_if-nil_iff _ _)
          (through (not-eq-false_iff _) (contains_iff valid_log_levels config.log_level)))
        (both _ _ (error_with-nil_iff "PROXY_BACKEND_HOST_URL_MAP" _) (
          through (error_with-nil_iff "PROXY_PRUNING_BACKEND_HOST_URL_MAP" _)
            (optional_url_map_iff sys config.proxy_pruning_backend_host_url_map_raw)))

  ttl_errors_iff : (ttl_errors sys config ≡ []) ↔ (
      IsTtl config.cache_method_has_block_number_param_ttl
      × (IsTtl config.cache_method_has_block_hash_param_ttl
          × (IsTtl config.cache_static_method_ttl
              × IsTtl config.cache_method_has_tx_hash_param_ttl)))
  unfolding ttl_errors
  ttl_errors_iff =
      both _ _ (check_ttl_config-nil_iff _ "CACHE_METHOD_HAS_BLOCK_NUMBER_PARAM_TTL_SECONDS") (
        both _ _ (check_ttl_config-nil_iff _ "CACHE_METHOD_HAS_BLOCK_HASH_PARAM_TTL_SECONDS") (
          both _ _ (check_ttl_config-nil_iff _ "CACHE_STATIC_METHOD_TTL_SECONDS")
            (check_ttl_config-nil_iff _ "CACHE_METHOD_HAS_TX_HASH_PARAM_TTL_SECONDS")))

  after_shards_iff : (errors_after_shards sys config ≡ []) ↔ (
      ContainsHosts config.proxy_pruning_backend_host_url_map
        config.proxy_backend_host_url_map_parsed
      × ((sys.atoi config.proxy_service_port ≢ none)
          × (IsPrefill config.metric_partitioning_prefill_period_days
              × ((config.redis_endpoint_url ≢ "")
                  × ((ttl_errors sys config ≡ [])
                      × (Lacks b':' config.cache_prefix
                          × ((config.cache_prefix ≢ "")
                              × ((config.hostname_to_access_control_allow_origin_value_map_raw ≡ "")
                                  ⊎ ((parse_raw_hostname_to_header_value_map
                                        config.hostname_to_access_control_allow_origin_value_map_raw).1
                                      ≡ [])))))))))
  unfolding errors_after_shards
  after_shards_iff = both _ _ (ContainsHosts-iff "PROXY_PRUNING_BACKEND_HOST_URL_MAP" _ _) (
      both _ _ (through (error_if-nil_iff _ "PROXY_SERVICE_PORT") (is_some_iff _)) (
        both _ _
          (through (error_if-nil_iff _ "METRIC_PARTITIONING_PREFILL_PERIOD_DAYS")
            (IsPrefill-iff config.metric_partitioning_prefill_period_days))
          (both _ _ (through (error_if-nil_iff _ "REDIS_ENDPOINT_URL") (not_empty_iff _)) (
            both _ _ ((λ e. e), (λ e. e))
              (both _ _ (through (error_if-nil_iff _ "CACHE_PREFIX") (has_char_iff _ _)) (
                both _ _ (through (error_if-nil_iff _ "CACHE_PREFIX") (not_empty_iff _)) (
                  through (error_with-nil_iff "HOSTNAME_TO_ACCESS_CONTROL_ALLOW_ORIGIN_VALUE_MAP" _)
                    (optional_header_map_iff
                      config.hostname_to_access_control_allow_origin_value_map_raw))))))))

  with_shard_error_iff :
      (r : Result (Unit {0}))
      → (with_shard_error r (λ shard_errors.
            errors_before_shards sys config ++ (shard_errors ++ errors_after_shards sys config))
          ≡ ok [])
        ↔ ((r ≡ ok tt)
            × ((errors_before_shards sys config ≡ []) × (errors_after_shards sys config ≡ [])))
  unfolding error_with
  with_shard_error_iff (ok tt) = (
    (λ e.
        let none_left : errors_before_shards sys config ++ errors_after_shards sys config ≡ [] =
          cc in
        (refl, (append-nil_iff _ _).0 none_left)),
    (λ (_, h). ap ok ((append-nil_iff _ _).1 h)),
  )
  with_shard_error_iff (err x) = (
    (λ e.
        let none_left : errors_before_shards sys config
              ++ (failure "invalid PROXY_SHARD_BACKEND_HOST_URL_MAP"
                  ∷ x
                  ∷ errors_after_shards sys config)
            ≡ [] =
          cc in
        elim (cons_ne _ _ ((append-nil_iff _ _).0 none_left).1) [ ]),
    (λ (e, _). cc),
  )
  with_shard_error_iff panic = ((λ e. cc), (λ (e, _). cc))

  -- Validate returns no error exactly for a configuration with a known log level; with raw maps of
  -- backends, pruning backends, shards and header values that parse without an error, of which the
  -- pruning and the header map may be empty; with a default backend for every host of the pruning map;
  -- with a port that is a number, 1 to 28 days of prefilled partitions, an address of Redis, times to
  -- live that are above 0 or -1 nanosecond, and a cache prefix that is not empty and has no colon.
  pub validate_iff : (validate sys config ≡ ok []) ↔ IsValid sys config
  unfolding validate validate_shard_routing_backend_host_url_map
  validate_iff = (
    (λ e.
        let (shards, (before, after)) = (with_shard_error_iff _).0 e in
        let (level, (backends, pruning)) = before_shards_iff.0 before in
        let (fallbacks, (port, (prefill, (redis, (ttls, (prefix, (given, headers))))))) =
          after_shards_iff.0 after in
        let (number, (hash, (static, tx))) = ttl_errors_iff.0 ttls in
        record {
          level = level;
          backends = backends;
          pruning = pruning;
          shards = shards;
          fallbacks = fallbacks;
          port = port;
          prefill = prefill;
          redis = redis;
          by_block_number = number;
          by_block_hash = hash;
          static = static;
          by_tx_hash = tx;
          prefix = prefix;
          prefix_given = given;
          headers = headers;
        }),
    (λ v. (with_shard_error_iff _).1 (
      v.shards,
      (
        before_shards_iff.1 (v.level, (v.backends, v.pruning)),
        after_shards_iff.1 (
          v.fallbacks,
          (
            v.port,
            (
              v.prefill,
              (
                v.redis,
                (
                  ttl_errors_iff.1 (v.by_block_number, (v.by_block_hash, (v.static, v.by_tx_hash))),
                  (v.prefix, (v.prefix_given, v.headers)),
                ),
              ),
            ),
          ),
        ),
      ),
    )),
  )
