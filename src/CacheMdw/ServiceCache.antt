-- ===== src/CacheMdw/ServiceCache.antt =====
-- service/cachemdw/cache.go: ServiceCache. The cache client is a `Cache` over a state; log lines are
-- left out, and with them the marshalling of params that only a log line uses.
use kava_proxy_service.Base.{
  String, List, Option, none, some, Bool, true, false, ◌||◌, Error, Result, ok, err, panic, failure,
  request_not_cacheable, response_not_cacheable, response_not_final, ℤ, pos, eq_ℤ, lt_ℤ, Dict,
  str_eq, ◌+++◌, if◌then◌else◌,
}
use kava_proxy_service.Exec.{Exec, pure, lift, lift_option, require, ◌>>=◌, ◌>>◌}
use kava_proxy_service.External.{External, Envelope, QueryResponse, JsonRpcResponse}
use kava_proxy_service.Decode.Methods.{
  method_has_block_number_param, method_has_block_hash_param, is_method_static,
  method_has_tx_hash_param, earliest_number,
}
use kava_proxy_service.Decode.BlockNumber.{parse_block_number_from_params}
use kava_proxy_service.Clients.CacheClient.{Cache}
use kava_proxy_service.CacheMdw.Keys.{get_query_key}
use kava_proxy_service.CacheMdw.Response.{is_response_cacheable, is_response_final}

pub record CacheConfig : Type 0 where
  pub cache_method_has_block_number_param_ttl : ℤ
  pub cache_method_has_block_hash_param_ttl : ℤ
  pub cache_static_method_ttl : ℤ
  pub cache_method_has_tx_hash_param_ttl : ℤ

pub record ServiceCache (S : Type 0) : Type 0 where
  pub cache_client : Cache S
  pub cache_prefix : String
  pub cache_enabled : Bool
  pub whitelisted_headers : List String
  pub config : CacheConfig

-- Tags other than "earliest" are not cacheable, and no number below 1 is.
unfoldable pub is_number_cacheable : Result ℤ → Result Bool
is_number_cacheable (ok n) = ok (lt_ℤ (pos 0) n || eq_ℤ n earliest_number)
is_number_cacheable (err _) = ok false
is_number_cacheable panic = panic

module _ (ext : External) where
  unfoldable pub is_cacheable : Option Envelope → Result Bool
  unfolding is_number_cacheable
  is_cacheable none = ok false
  is_cacheable (some req) =
      if str_eq req.method ""
      then ok false
      else if method_has_block_number_param req.method
      then is_number_cacheable (parse_block_number_from_params ext req.method req.params)
      else if method_has_block_hash_param req.method
      then ok true
      else if is_method_static req.method
      then ok true
      else if method_has_tx_hash_param req.method
      then ok true
      else ok false

unfoldable pub get_ttl : CacheConfig → String → Result ℤ
get_ttl config method =
    if method_has_block_number_param method
    then ok config.cache_method_has_block_number_param_ttl
    else if method_has_block_hash_param method
    then ok config.cache_method_has_block_hash_param_ttl
    else if is_method_static method
    then ok config.cache_static_method_ttl
    else if method_has_tx_hash_param method
    then ok config.cache_method_has_tx_hash_param_ttl
    else err request_not_cacheable

-- json.Marshal and json.Unmarshal fail with an error of their own.
abbrev pub codec_error : Error
codec_error = failure "json"

-- The error of GetTTL, wrapped by fmt.Errorf.
abbrev pub wrap_ttl : Result ℤ → Result ℤ
wrap_ttl (ok ttl) = ok ttl
wrap_ttl (err _) = err (failure "can't get cache TTL")
wrap_ttl panic = panic

module _ {S : Type 0} (ext : External) (c : ServiceCache S) where
  -- The cached response, with the request's ID and version.
  unfoldable pub restore_response : Envelope → QueryResponse → Exec S QueryResponse
  restore_response req cached = do
    id ← lift_option codec_error (ext.marshal_id req.id)
    text ← lift_option codec_error (
        ext.marshal_response (record {
          version = req.json_rpc_version;
          id = id;
          result = cached.json_rpc_response_result;
          json_rpc_error = none;
        }))
    pure (record cached { json_rpc_response_result = text +++ "\n" })

  unfoldable pub get_cached_query_response : Envelope → Exec S QueryResponse
  unfolding restore_response
  get_cached_query_response req = do
    cacheable ← lift (is_cacheable ext (some req))
    require cacheable request_not_cacheable
    key ← lift (get_query_key ext c.cache_prefix (some req))
    json ← c.cache_client.get key
    cached ← lift_option codec_error (ext.unmarshal_query_response json)
    restore_response req cached

  -- Saves the result of a response that may be cached.
  unfoldable pub save_response : Envelope → JsonRpcResponse → Dict String → Exec S (Unit {0})
  save_response req response header_map = do
    require (is_response_cacheable ext response) response_not_cacheable
    require (is_response_final ext response req.method) response_not_final
    key ← lift (get_query_key ext c.cache_prefix (some req))
    json ← lift_option codec_error (
        ext.marshal_query_response
          (record { json_rpc_response_result = response.result; header_map = header_map }))
    ttl ← lift (wrap_ttl (get_ttl c.config req.method))
    c.cache_client.set key json ttl

  unfoldable pub cache_query_response : Envelope → String → Dict String → Exec S (Unit {0})
  unfolding save_response
  cache_query_response req response_bytes header_map = do
    cacheable ← lift (is_cacheable ext (some req))
    require cacheable request_not_cacheable
    response ← lift_option codec_error (ext.unmarshal_response response_bytes)
    save_response req response header_map
