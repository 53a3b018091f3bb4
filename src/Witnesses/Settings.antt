-- ===== src/Witnesses/Settings.antt =====
-- Examples for the reading of the configuration, its validation, and the start of the program.
use kava_proxy_service.Base.{
  ℕ, String, [], ◌∷◌, none, some, true, ok, ℤ, pos, lt_ℤ, Dict, lookup, ◌≡◌, ◌↔◌, refl, arith, All,
  insert, split, contains, has_char,
}
use kava_proxy_service.Config.Environment.{
  System, getenv, env_or_default, env_or_default_bool, env_or_default_int64, env_or_default_int,
  seconds,
}
use kava_proxy_service.Config.Intervals.{url_at, new_interval_url_map}
use kava_proxy_service.Config.HostMaps.{
  parse_raw_proxy_backend_host_url_map, parse_raw_hostname_to_header_value_map, parse_entries,
  add_entries, add_entry, entry_of,
}
use kava_proxy_service.Config.HostMaps.RoundTrip.{
  IsPlain, print_entries, last_value, host_map_round_trip,
}
use kava_proxy_service.Config.Shards.{
  host_shards, add_shards, add_shard, parse_hosts, parse_raw_shard_routing_backend_host_url_map,
}
use kava_proxy_service.Config.Shards.Ascending.{IsShardMap, shards_ascending}
use kava_proxy_service.Config.Reading.{read_config}
use kava_proxy_service.Config.Reading.TimesToLive.{ttls_positive}
use kava_proxy_service.Config.Validation.{
  validate, is_empty_map, unless_empty, check_ttl_config, error_if, error_with,
  errors_before_shards, errors_after_shards, ttl_errors, validate_default_host_map_contains_hosts,
  validate_host_url_map, validate_hostname_to_header_value_map,
  validate_shard_routing_backend_host_url_map,
}
use kava_proxy_service.Config.Validation.Accepted.{IsValid, validate_iff}
use kava_proxy_service.Entry.{Level, initialize}
use kava_proxy_service.Entry.Started.{initialize_iff}

abbrev numbers : Dict ℤ
numbers = ("7777", pos 7777) ∷ ("60", pos 60) ∷ ("1", pos 1) ∷ []

abbrev pub environment : Dict String
environment =
    ("PROXY_BACKEND_HOST_URL_MAP", "a.io>http://a:8545,b.io>http://b:8545")
    ∷ ("PROXY_PRUNING_BACKEND_HOST_URL_MAP", "a.io>http://p:8545")
    ∷ ("PROXY_SHARD_BACKEND_HOST_URL_MAP", "a.io>1|http://s1|60|http://s2")
    ∷ ("PROXY_SERVICE_PORT", "7777")
    ∷ ("REDIS_ENDPOINT_URL", "redis:6379")
    ∷ ("CACHE_PREFIX", "kava")
    ∷ ("CACHE_METHOD_HAS_BLOCK_NUMBER_PARAM_TTL_SECONDS", "60")
    ∷ ("CACHE_METHOD_HAS_BLOCK_HASH_PARAM_TTL_SECONDS", "60")
    ∷ ("CACHE_STATIC_METHOD_TTL_SECONDS", "60")
    ∷ ("CACHE_METHOD_HAS_TX_HASH_PARAM_TTL_SECONDS", "60")
    ∷ []

abbrev small_numbers : Dict ℕ
small_numbers = ("60", 60) ∷ ("1", 1) ∷ []

abbrev pub sample_system : System
sample_system = record {
  lookup_env = λ key. lookup key environment;
  parse_bool = λ s. none;
  parse_int = λ s. lookup s numbers;
  atoi = λ s. lookup s numbers;
  parse_uint = λ s. lookup s small_numbers;
  parse_url = some;
}

shards_example :
    All IsShardMap
      (parse_raw_shard_routing_backend_host_url_map sample_system "a.io>1|http://s1|60|http://s2").0
shards_example = shards_ascending sample_system "a.io>1|http://s1|60|http://s2"

two_hosts-IsPlain :
    All (IsPlain sample_system.parse_url) (("a.io", "http://a") ∷ ("b.io", "http://b") ∷ [])
two_hosts-IsPlain = (
  (omega arith, omega arith, omega arith, omega arith, refl),
  ((omega arith, omega arith, omega arith, omega arith, refl), tt),
)

host_map_example :
    let parsed =
      parse_raw_proxy_backend_host_url_map sample_system
        (print_entries (("a.io", "http://a") ∷ ("b.io", "http://b") ∷ [])) in
    (lookup "b.io" parsed.0
      ≡ last_value "b.io" (("a.io", "http://a") ∷ ("b.io", "http://b") ∷ []) none)
    × (parsed.1 ≡ [])
host_map_example =
    host_map_round_trip sample_system "b.io" ("a.io", "http://a") (("b.io", "http://b") ∷ [])
      two_hosts-IsPlain

validate_example :
    (validate sample_system (read_config sample_system) ≡ ok [])
    ↔ IsValid sample_system (read_config sample_system)
validate_example = validate_iff sample_system (read_config sample_system)

pub sample_valid : validate sample_system (read_config sample_system) ≡ ok []
unfolding validate read_config getenv env_or_default env_or_default_bool env_or_default_int64
    env_or_default_int seconds lookup insert split contains has_char url_at new_interval_url_map
    parse_raw_shard_routing_backend_host_url_map host_shards add_shards add_shard parse_hosts
    parse_raw_proxy_backend_host_url_map parse_raw_hostname_to_header_value_map parse_entries
    add_entries add_entry entry_of is_empty_map unless_empty check_ttl_config error_if error_with
    errors_before_shards errors_after_shards ttl_errors validate_default_host_map_contains_hosts
    validate_host_url_map validate_hostname_to_header_value_map
    validate_shard_routing_backend_host_url_map
sample_valid = refl

ttls_example :
    let config = read_config sample_system in
    (lt_ℤ (pos 0) config.cache_method_has_block_number_param_ttl ≡ true)
    × (lt_ℤ (pos 0) config.cache_method_has_block_hash_param_ttl ≡ true)
    × (lt_ℤ (pos 0) config.cache_static_method_ttl ≡ true)
    × (lt_ℤ (pos 0) config.cache_method_has_tx_hash_param_ttl ≡ true)
ttls_example = ttls_positive sample_system sample_valid

initialize_example :
    ((level : Level) × (initialize sample_system ≡ ok (read_config sample_system, level)))
    ↔ IsValid sample_system (read_config sample_system)
initialize_example = initialize_iff sample_system
