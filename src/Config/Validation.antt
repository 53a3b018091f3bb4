-- ===== src/Config/Validation.antt =====
-- config/validate.go: Validate. nil is the empty list of errors, and errors.Join appends. The hosts of a
-- map are visited in the order of the list, which matters only to the host that an error names.
pub mod Checks
pub mod Optional
pub mod Accepted
use kava_proxy_service.Base.{
  ℕ, String, List, [], ◌∷◌, ◌++◌, Option, none, some, Bool, true, false, not, ◌&&◌, ◌||◌, str_eq,
  has_char, contains, ◌+++◌, Dict, lookup, Error, failure, empty_host_map,
  empty_hostname_to_header_value_map, Result, ok, err, panic, ℤ, pos, negsuc, lt_ℤ, eq_ℤ,
  if◌then◌else◌,
}
use kava_proxy_service.Config.Intervals.{Url}
use kava_proxy_service.Config.Environment.{System}
use kava_proxy_service.Config.HostMaps.{
  Errors, parse_raw_proxy_backend_host_url_map, parse_raw_hostname_to_header_value_map,
}
use kava_proxy_service.Config.Shards.{parse_raw_shard_routing_backend_host_url_map}
use kava_proxy_service.Config.Reading.{Config}

abbrev pub valid_log_levels : List String
valid_log_levels = "TRACE" ∷ "DEBUG" ∷ "INFO" ∷ "ERROR" ∷ []

abbrev pub max_metric_partitioning_prefill_period_days : ℕ
max_metric_partitioning_prefill_period_days = 28

-- errors.Is(err, ErrEmptyHostMap) and errors.Is(err, ErrEmptyHostnameToHeaderValueMap)
unfoldable pub is_empty_map : Errors → Bool
is_empty_map [] = false
is_empty_map (empty_host_map ∷ errors) = true
is_empty_map (empty_hostname_to_header_value_map ∷ errors) = true
is_empty_map (_ ∷ errors) = is_empty_map errors

-- `if allowEmpty && errors.Is(err, ...) { err = nil }`
unfoldable pub unless_empty : Bool → Errors → Errors
unless_empty allow_empty errors = if allow_empty && is_empty_map errors then [] else errors

module _ (sys : System) where
  unfoldable pub validate_host_url_map : String → Bool → Errors
  unfolding unless_empty
  validate_host_url_map raw allow_empty =
      unless_empty allow_empty (parse_raw_proxy_backend_host_url_map sys raw).1

  unfoldable pub validate_shard_routing_backend_host_url_map : String → Result (Unit {0})
  validate_shard_routing_backend_host_url_map raw =
      (parse_raw_shard_routing_backend_host_url_map sys raw).1

unfoldable pub validate_hostname_to_header_value_map : String → Bool → Errors
unfolding unless_empty
validate_hostname_to_header_value_map raw allow_empty =
    unless_empty allow_empty (parse_raw_hostname_to_header_value_map raw).1

unfoldable pub check_ttl_config : ℤ → String → Errors
check_ttl_config ttl key =
    if lt_ℤ (pos 0) ttl
    then []
    else if eq_ℤ ttl (negsuc 0)
    then []
    else failure ("invalid " +++ key) ∷ []

abbrev pub missing_host : String → String → Option Url → Errors → Errors
missing_host map_name host none rest =
    failure ("host " +++ host +++ " is in " +++ map_name +++ " but not in default host map") ∷ []
missing_host map_name host (some _) rest = rest

unfoldable pub validate_default_host_map_contains_hosts : String → Dict Url → Dict Url → Errors
validate_default_host_map_contains_hosts map_name default_hosts [] = []
validate_default_host_map_contains_hosts map_name default_hosts ((host, _) ∷ rest) =
    missing_host map_name host (lookup host default_hosts)
      (validate_default_host_map_contains_hosts map_name default_hosts rest)

-- `if test { allErrs = errors.Join(allErrs, fmt.Errorf(...)) }`
unfoldable pub error_if : Bool → String → Errors
error_if true key = failure ("invalid " +++ key) ∷ []
error_if false key = []

-- `if err != nil { allErrs = errors.Join(allErrs, fmt.Errorf(...), err) }`
unfoldable pub error_with : String → Errors → Errors
error_with key [] = []
error_with key (e ∷ errors) = failure ("invalid " +++ key) ∷ e ∷ errors

abbrev pub is_some {ℓ} : {A : Type ℓ} → Option A → Bool
is_some none = false
is_some (some _) = true

abbrev pub with_shard_error : Result (Unit {0}) → (Errors → Errors) → Result Errors
with_shard_error (ok _) k = ok (k [])
with_shard_error (err e) k = ok (k (error_with "PROXY_SHARD_BACKEND_HOST_URL_MAP" (e ∷ [])))
with_shard_error panic k = panic

module _ (sys : System) (config : Config) where
  -- The checks before that of the shards.
  unfoldable pub errors_before_shards : Errors
  unfolding error_if error_with validate_host_url_map
  errors_before_shards =
      error_if (not (contains valid_log_levels config.log_level)) "LOG_LEVEL"
      ++ (error_with "PROXY_BACKEND_HOST_URL_MAP"
            (validate_host_url_map sys config.proxy_backend_host_url_map_raw false)
          ++ error_with "PROXY_PRUNING_BACKEND_HOST_URL_MAP"
              (validate_host_url_map sys config.proxy_pruning_backend_host_url_map_raw true))

  -- The checks of the times to live.
  unfoldable pub ttl_errors : Errors
  unfolding check_ttl_config
  ttl_errors =
      check_ttl_config config.cache_method_has_block_number_param_ttl
        "CACHE_METHOD_HAS_BLOCK_NUMBER_PARAM_TTL_SECONDS"
      ++ (check_ttl_config config.cache_method_has_block_hash_param_ttl
            "CACHE_METHOD_HAS_BLOCK_HASH_PARAM_TTL_SECONDS"
          ++ (check_ttl_config config.cache_static_method_ttl "CACHE_STATIC_METHOD_TTL_SECONDS"
              ++ check_ttl_config config.cache_method_has_tx_hash_param_ttl
                  "CACHE_METHOD_HAS_TX_HASH_PARAM_TTL_SECONDS"))

  -- The checks after that of the shards.
  unfoldable pub errors_after_shards : Errors
  unfolding error_if error_with ttl_errors validate_default_host_map_contains_hosts
      validate_hostname_to_header_value_map
  errors_after_shards =
      validate_default_host_map_contains_hosts "PROXY_PRUNING_BACKEND_HOST_URL_MAP"
        config.proxy_backend_host_url_map_parsed config.proxy_pruning_backend_host_url_map
      ++ (error_if (not (is_some (sys.atoi config.proxy_service_port))) "PROXY_SERVICE_PORT"
          ++ (error_if
                (lt_ℤ (pos max_metric_partitioning_prefill_period_days)
                    config.metric_partitioning_prefill_period_days
                  || lt_ℤ config.metric_partitioning_prefill_period_days (pos 1))
                "METRIC_PARTITIONING_PREFILL_PERIOD_DAYS"
              ++ (error_if (str_eq config.redis_endpoint_url "") "REDIS_ENDPOINT_URL"
                  ++ (ttl_errors
                      ++ (error_if (has_char b':' config.cache_prefix) "CACHE_PREFIX"
                          ++ (error_if (str_eq config.cache_prefix "") "CACHE_PREFIX"
                              ++ error_with "HOSTNAME_TO_ACCESS_CONTROL_ALLOW_ORIGIN_VALUE_MAP" (
                                  validate_hostname_to_header_value_map
                                    config.hostname_to_access_control_allow_origin_value_map_raw
                                    true)))))))

  unfoldable pub validate : Result Errors
  unfolding errors_before_shards errors_after_shards validate_shard_routing_backend_host_url_map
  validate =
      with_shard_error
        (validate_shard_routing_backend_host_url_map sys
          config.proxy_shard_backend_host_url_map_raw)
        (λ shard_errors. errors_before_shards ++ (shard_errors ++ errors_after_shards))
