-- ===== src/Witnesses/Serving.antt =====
-- Examples for the middlewares of the service: a miss, the hit that follows it, and its metric.
use kava_proxy_service.Base.{
  ℕ, String, List, [], ◌∷◌, Option, none, some, Bool, true, false, ok, err, not_found, pos, ℤ, ◌≡◌,
  ◌≢◌, refl, sym, ap, str_eq, if◌then◌else◌, ◌+++◌, lookup, insert, contains, Dict,
}
use kava_proxy_service.External.{QueryResponse, JsonRpcResponse}
use kava_proxy_service.Http.{
  header_get, header_values, canonical, Request, ResponseWriter, server_writer, write,
  ProxyMetadata,
}
use kava_proxy_service.Handlers.{World}
use kava_proxy_service.Clients.InMemory.{InMemoryCache, in_memory_cache, set}
use kava_proxy_service.Clients.InMemory.Laws.{in_memory_cache-CacheLaws}
use kava_proxy_service.Routing.Selection.{
  new_proxies, baseline_proxies, new_pruning_or_default_proxies,
}
use kava_proxy_service.Routing.Shard.{
  shard_proxy_for_request, new_shard_proxies, shard_height, add_urls, proxies_by_url,
  route_at_height, route_to_shard, route_default,
}
use kava_proxy_service.Routing.Pruning.{pruning_proxy_for_request, should_route_to_pruning}
use kava_proxy_service.Routing.Host.{
  Routed, host_proxy_for_request, new_host_proxies, proxies_by_host,
}
use kava_proxy_service.Decode.Methods.{method_requires_no_history, method_has_block_number_param}
use kava_proxy_service.Decode.BlockNumber.{
  parse_block_number_from_params, parse_block_param, block_param_to_int64,
}
use kava_proxy_service.Config.Intervals.{lookup_interval, search, url_at, new_interval_url_map}
use kava_proxy_service.CacheMdw.ServiceCache.{
  get_cached_query_response, cache_query_response, save_response, is_cacheable, is_number_cacheable,
  get_ttl,
}
use kava_proxy_service.CacheMdw.Keys.{get_query_key, query_key, build_cache_key}
use kava_proxy_service.CacheMdw.Response.{
  is_response_cacheable, is_result_empty, is_value_empty, is_response_final,
}
use kava_proxy_service.CacheMdw.Middleware.{get_headers_to_cache, with_cached, with_cached_response}
use kava_proxy_service.BatchMdw.Processor.{cache_header_key, cache_hit_header_value}
use kava_proxy_service.Service.BodySaver.{body_saver, new_body_saver, save_write}
use kava_proxy_service.Config.Intervals.{Url}
use kava_proxy_service.Service.ProxyRequest.{Backend, ReverseProxy, cached_headers}
use kava_proxy_service.Service.Chain.{cache_middleware}
use kava_proxy_service.Service.Hits.{Leaves, hit_writer, hit_served}
use kava_proxy_service.Service.Misses.{miss_writer, miss_request, save_answer}
use kava_proxy_service.Service.Answered.{WritesThrough, IsWhitelisted, miss_saved}
use kava_proxy_service.Service.CachedHeaders.{cached_headers_hit}
use kava_proxy_service.Service.HitAfterMiss.{
  IsSaved, IsAskedAgain, hit_after_miss, saved_answer, saved_headers,
}
use kava_proxy_service.Service.Forwarded.{last_forwarded_for_answered}
use kava_proxy_service.Witnesses.Plain.{century_is_later}
use kava_proxy_service.Witnesses.Caching.{
  sample_ttls-HasValidTtls, sample-ReadsBack, other_request, same_query,
}
use kava_proxy_service.Witnesses.Samples.{
  sample_external, sample_request, sample_context, block_request, sample_negroni, sample_config,
  sample_cache, sample_backend, broken_backend, century_later, empty_store, new_writer, new_world,
  sample_serving, sample_routing,
}

-- The proxy of the shard that holds height 16.
abbrev shard_routed : Routed
shard_routed = record {
  proxy = some "shard-20";
  metadata = record { backend_name = "SHARD"; backend_route = "shard-20"; shard_end_height = 20 };
  found = true;
}

abbrev missed_writer : ResponseWriter
missed_writer =
    (miss_writer sample_negroni server_writer
      (sample_backend "shard-20" (miss_request sample_request)) new_writer).inner

lookup_misses :
    get_cached_query_response sample_external sample_cache block_request empty_store
    ≡ (empty_store, err not_found)
unfolding get_cached_query_response kava_proxy_service.CacheMdw.ServiceCache.is_cacheable
    kava_proxy_service.Decode.Methods.method_has_block_number_param kava_proxy_service.Base.contains
    kava_proxy_service.Decode.BlockNumber.parse_block_number_from_params
    kava_proxy_service.Base.lookup kava_proxy_service.Decode.BlockNumber.parse_block_param
    kava_proxy_service.CacheMdw.Keys.get_query_key
    kava_proxy_service.Clients.InMemory.in_memory_cache kava_proxy_service.Clients.InMemory.get
    kava_proxy_service.Base.delete
lookup_misses = refl

routes_miss :
    (new_proxies sample_external sample_routing).proxy_for_request
      (with_cached false sample_request)
    ≡ ok shard_routed
unfolding new_proxies baseline_proxies new_pruning_or_default_proxies shard_proxy_for_request
    new_shard_proxies shard_height add_urls proxies_by_url route_at_height route_to_shard
    route_default pruning_proxy_for_request should_route_to_pruning host_proxy_for_request
    new_host_proxies proxies_by_host method_requires_no_history method_has_block_number_param
    parse_block_number_from_params parse_block_param block_param_to_int64 lookup_interval search
    url_at new_interval_url_map lookup insert contains
routes_miss = refl

sample-WritesThrough : WritesThrough {W = ResponseWriter} sample_negroni server_writer (λ v. v.body)
sample-WritesThrough = record {
  body_of-change_header = λ f v. refl;
  body_of-negroni_write = λ b s v. refl;
  body_of-negroni_write_status = λ status s v. refl;
}

miss_example :
    let after =
      (cache_middleware sample_external sample_negroni server_writer sample_config sample_cache
        sample_backend 3 sample_request new_world).0 in
    (headers : Dict String) × IsWhitelisted sample_cache.whitelisted_headers after.writer.header
      headers
    × (after.writer.body ≡ "" +++ "0x5")
    × (after.store
        ≡ (cache_query_response sample_external sample_cache block_request "0x5" headers
            empty_store).0)
unfolding kava_proxy_service.CacheMdw.ServiceCache.is_cacheable
    kava_proxy_service.Decode.Methods.method_has_block_number_param kava_proxy_service.Base.contains
    kava_proxy_service.Decode.BlockNumber.parse_block_number_from_params
    kava_proxy_service.Base.lookup kava_proxy_service.Decode.BlockNumber.parse_block_param
miss_example =
    miss_saved sample_external sample_negroni server_writer (λ v. v.body) sample_config sample_cache
      sample_backend 3 sample_request block_request not_found empty_store shard_routed "shard-20"
      new_world sample-WritesThrough refl refl refl refl lookup_misses routes_miss refl refl refl

abbrev cached_query : QueryResponse
cached_query = record { json_rpc_response_result = "0x5\n"; header_map = [] }

abbrev full_store : InMemoryCache
full_store = record {
  items =
      (
        "chain:evm-request:eth_getBlockByNumber:sha256:00",
        record { bytes = "0x5"; expiration = pos 60 },
      )
      ∷ [];
  now = pos 0;
}

abbrev full_world : World InMemoryCache ResponseWriter
full_world = record { store = full_store; writer = new_writer; metrics = [] }

lookup_hits :
    get_cached_query_response sample_external sample_cache block_request full_store
    ≡ (full_store, ok cached_query)
unfolding get_cached_query_response kava_proxy_service.CacheMdw.ServiceCache.is_cacheable
    method_has_block_number_param contains parse_block_number_from_params lookup parse_block_param
    kava_proxy_service.CacheMdw.Keys.get_query_key
    kava_proxy_service.Clients.InMemory.in_memory_cache kava_proxy_service.Clients.InMemory.get
    kava_proxy_service.CacheMdw.Keys.query_key kava_proxy_service.CacheMdw.Keys.build_cache_key
    kava_proxy_service.Base.join
lookup_hits = refl

routes_hit :
    (q : QueryResponse)
    → (new_proxies sample_external sample_routing).proxy_for_request
        (with_cached_response q sample_request)
      ≡ ok shard_routed
unfolding new_proxies baseline_proxies new_pruning_or_default_proxies shard_proxy_for_request
    new_shard_proxies shard_height add_urls proxies_by_url route_at_height route_to_shard
    route_default pruning_proxy_for_request should_route_to_pruning host_proxy_for_request
    new_host_proxies proxies_by_host method_requires_no_history method_has_block_number_param
    parse_block_number_from_params parse_block_param block_param_to_int64 lookup_interval search
    url_at new_interval_url_map lookup insert contains
routes_hit q = refl

hit_example :
    Leaves
      (cache_middleware sample_external sample_negroni server_writer sample_config sample_cache
        broken_backend 3 sample_request full_world)
      (hit_writer server_writer sample_serving sample_request cached_query new_writer)
      full_store
hit_example =
    hit_served sample_external sample_negroni server_writer sample_config sample_cache
      broken_backend 3 sample_request block_request cached_query full_store shard_routed full_world
      refl refl refl lookup_hits (routes_hit cached_query) refl

answer_saved :
    (save_answer sample_external server_writer sample_cache block_request
      (miss_writer sample_negroni server_writer
        (sample_backend "shard-20" (miss_request sample_request))
        new_writer)
      empty_store).1
    ≡ ok tt
unfolding cache_query_response save_response is_cacheable is_number_cacheable
    method_has_block_number_param contains parse_block_number_from_params lookup parse_block_param
    block_param_to_int64 is_response_cacheable is_result_empty is_value_empty is_response_final
    get_query_key query_key build_cache_key body_saver new_body_saver save_write
    get_headers_to_cache get_ttl in_memory_cache set
answer_saved = refl

first_saved :
    IsSaved sample_external sample_negroni server_writer sample_config sample_cache sample_request
      block_request sample_backend new_world
first_saved = record {
  error = not_found;
  store = empty_store;
  routed = shard_routed;
  url = "shard-20";
  decoded = refl;
  missed = lookup_misses;
  routes = routes_miss;
  found = refl;
  proxied = refl;
  runs = refl;
  saves = answer_saved;
}

abbrev second_request : Request
second_request = record sample_request {
  context = record sample_context { decoded_request = some other_request };
}

abbrev second_world : World InMemoryCache ResponseWriter
second_world = record {
  store =
      (cache_middleware sample_external sample_negroni server_writer sample_config sample_cache
        sample_backend 3 sample_request new_world).0.store;
  writer = new_writer;
  metrics = [];
}

again :
    (response : JsonRpcResponse) × (sample_external.unmarshal_response (
        saved_answer sample_external sample_negroni server_writer sample_config sample_cache
          first_saved)
      ≡ some response)
    × (is_response_cacheable sample_external response ≡ true)
    × (IsAskedAgain sample_external sample_negroni server_writer sample_config sample_cache
          second_request other_request response.result "1" "0x5"
        → (cache_middleware sample_external sample_negroni server_writer sample_config sample_cache
            broken_backend 4 second_request second_world).0.writer
          ≡ hit_writer server_writer sample_serving second_request
              (record {
                json_rpc_response_result = "0x5" +++ "\n";
                header_map =
                    saved_headers sample_external sample_negroni server_writer sample_config
                      sample_cache first_saved;
              })
              new_writer)
again =
    hit_after_miss sample_external sample_negroni server_writer sample_config sample_cache
      (in_memory_cache-CacheLaws century_later century_is_later) sample_ttls-HasValidTtls
      sample-ReadsBack refl refl sample_request second_request block_request other_request
      sample_backend broken_backend 3 4 new_world second_world "1" "0x5" first_saved same_query refl
      refl

abbrev shard_metadata : ProxyMetadata
shard_metadata = shard_routed.metadata

-- A backend that answers something else to other values of X-Forwarded-For than 2.2.2.2.
abbrev choosy : List String → ReverseProxy
choosy (v ∷ []) =
    if str_eq v "2.2.2.2"
    then record { writer_calls = write "0x5" ∷ []; panics = false }
    else record { writer_calls = []; panics = true }
choosy [] = record { writer_calls = []; panics = true }
choosy (u ∷ v ∷ vs) = record { writer_calls = []; panics = true }

abbrev choosy_backend : Backend
choosy_backend url r = choosy (header_values r.header "X-Forwarded-For")

choosy_agrees :
    (url : Url) (r : Request)
    → header_values r.header "X-Forwarded-For" ≡ "2.2.2.2" ∷ []
    → sample_backend url r ≡ choosy_backend url r
choosy_agrees url r e = sym (ap choosy e)

forwarded_example :
    cache_middleware sample_external sample_negroni server_writer sample_config sample_cache
      sample_backend 3 sample_request new_world
    ≡ cache_middleware sample_external sample_negroni server_writer sample_config sample_cache
        choosy_backend 3 sample_request new_world
unfolding header_values lookup
forwarded_example =
    last_forwarded_for_answered sample_external sample_negroni server_writer sample_config
      sample_cache sample_backend choosy_backend 3 sample_request block_request not_found
      empty_store shard_routed "shard-20" new_world ("1.1.1.1" ∷ []) "2.2.2.2" refl refl refl
      lookup_misses routes_miss refl refl refl choosy_agrees

headers_example :
    let h =
      cached_headers sample_serving "api"
        (("Vary", "Origin") ∷ [])
        (("Server", "nginx" ∷ []) ∷ []) in
    (header_get h cache_header_key ≡ cache_hit_header_value)
    × (header_get h "Content-Type" ≡ "application/json")
    × ((k : String)
        → canonical k ≢ canonical cache_header_key
        → canonical k ≢ canonical "Content-Type"
        → header_get (("Server", "nginx" ∷ []) ∷ []) k ≢ ""
        → header_get h k ≡ header_get (("Server", "nginx" ∷ []) ∷ []) k)
headers_example =
    cached_headers_hit sample_serving "api" (("Vary", "Origin") ∷ [])
      (("Server", "nginx" ∷ []) ∷ [])
