-- ===== src/Witnesses/Caching.antt =====
-- Examples for the package cachemdw.
use kava_proxy_service.Base.{
  String, [], ◌∷◌, none, some, true, ok, ℤ, ◌≡◌, ◌⊎◌, ◌↔◌, inr, refl, arith, lookup, contains, ap,
  sym, ◌+++◌, Dict,
}
use kava_proxy_service.External.{Envelope, JsonRpcResponse, QueryResponse, number}
use kava_proxy_service.Decode.Methods.{
  method_has_block_number_param, method_has_block_hash_param, is_method_static,
  method_has_tx_hash_param,
}
use kava_proxy_service.Decode.BlockNumber.{parse_block_number_from_params, parse_block_param}
use kava_proxy_service.Clients.CacheClient.{IsTtl}
use kava_proxy_service.Clients.InMemory.Laws.{in_memory_cache-CacheLaws}
use kava_proxy_service.CacheMdw.Keys.{query_key}
use kava_proxy_service.CacheMdw.Keys.Injective.{query_key_injective}
use kava_proxy_service.CacheMdw.Response.{is_response_cacheable, is_response_final}
use kava_proxy_service.CacheMdw.ServiceCache.{
  is_cacheable, get_ttl, get_cached_query_response, cache_query_response,
}
use kava_proxy_service.CacheMdw.Cacheable.{
  HasValidTtls, HasCacheableNumber, get_ttl-is_cacheable, is_cacheable_iff,
}
use kava_proxy_service.CacheMdw.RoundTrip.{ReadsBack, IsSameQuery, get_cached-cache_query_response}
use kava_proxy_service.Witnesses.Samples.{
  sample_external, block_request, sample_ttls, sample_cache, empty_store, century_later,
  encode_cached,
}
use kava_proxy_service.Witnesses.Plain.{century_is_later}

abbrev chain : String
chain = "chain"

abbrev call_method : String
call_method = "eth_call"

abbrev no_params : String
no_params = "[]"

key_example : (chain ≡ chain) × (call_method ≡ call_method) × (no_params ≡ no_params)
key_example =
    query_key_injective sample_external chain chain call_method call_method no_params no_params
      (λ s. omega arith) (omega arith, (omega arith, (omega arith, (omega arith, tt)))) (λ e. refl)
      refl

pub sample_ttls-HasValidTtls : HasValidTtls sample_ttls
sample_ttls-HasValidTtls = record {
  by_block_number = inr refl;
  by_block_hash = inr refl;
  static = inr refl;
  by_tx_hash = inr refl;
}

ttl_example : (ttl : ℤ) × (get_ttl sample_ttls block_request.method ≡ ok ttl) × IsTtl ttl
unfolding is_cacheable method_has_block_number_param contains parse_block_number_from_params lookup
    parse_block_param
ttl_example =
    get_ttl-is_cacheable sample_external sample_ttls block_request sample_ttls-HasValidTtls refl

cacheable_example : (is_cacheable sample_external (some block_request) ≡ ok true) ↔ (
    ((method_has_block_number_param block_request.method ≡ true)
      × HasCacheableNumber sample_external block_request)
    ⊎ ((method_has_block_hash_param block_request.method ≡ true)
        ⊎ ((is_method_static block_request.method ≡ true)
            ⊎ (method_has_tx_hash_param block_request.method ≡ true))))
cacheable_example = is_cacheable_iff sample_external block_request

abbrev response_of : String → Dict String → QueryResponse
response_of result h = record { json_rpc_response_result = result; header_map = h }

read_back :
    (h : Dict String) (result json : String)
    → encode_cached (response_of result h) ≡ some json
    → some (response_of json []) ≡ some (response_of result h)
read_back [] result json e = ap (λ r. some (response_of r [])) (sym (some_eq e))
  where
    some_eq : {a b : String} → some a ≡ some b → a ≡ b
    some_eq e = cc e
read_back (x ∷ h) result json e = cc e

pub sample-ReadsBack : ReadsBack sample_external sample_cache
sample-ReadsBack q json e = read_back q.header_map q.json_rpc_response_result json e

abbrev pub other_request : Envelope
other_request = record block_request { id = number "9" }

pub same_query : IsSameQuery sample_external sample_cache block_request other_request
same_query = record { same_method = refl; same_params = refl }

round_trip_example :
    (response : JsonRpcResponse) × (sample_external.unmarshal_response "0x5" ≡ some response)
    × (is_response_cacheable sample_external response ≡ true)
    × (is_response_final sample_external response block_request.method ≡ true)
    × (sample_external.marshal_response (record {
      version = other_request.json_rpc_version;
      id = "1";
      result = response.result;
      json_rpc_error = none;
    })
          ≡ some "0x5"
        → (get_cached_query_response sample_external sample_cache other_request
            (cache_query_response sample_external sample_cache block_request "0x5" []
              empty_store).0).1
          ≡ ok (record { json_rpc_response_result = "0x5" +++ "\n"; header_map = [] }))
unfolding cache_query_response is_cacheable method_has_block_number_param contains
    parse_block_number_from_params lookup parse_block_param is_response_cacheable
    kava_proxy_service.CacheMdw.Response.is_result_empty
    kava_proxy_service.CacheMdw.Response.is_value_empty is_response_final
    kava_proxy_service.CacheMdw.Keys.get_query_key get_ttl
    kava_proxy_service.Clients.InMemory.in_memory_cache kava_proxy_service.Clients.InMemory.set
round_trip_example =
    get_cached-cache_query_response sample_external sample_cache block_request other_request "0x5"
      [] empty_store "1" "0x5" (in_memory_cache-CacheLaws century_later century_is_later)
      sample_ttls-HasValidTtls sample-ReadsBack same_query refl refl
