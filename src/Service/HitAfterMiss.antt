-- ===== src/Service/HitAfterMiss.antt =====
-- Two requests in a row: the first is answered by the backend, the second from the cache.
use kava_proxy_service.Base.{
  String, some, none, true, false, ok, err, Error, ◌≡◌, ap, ◌∙◌, ℕ, Dict, ◌+++◌,
}
use kava_proxy_service.External.{External, Envelope, QueryResponse, JsonRpcResponse}
use kava_proxy_service.Http.{Request, Writer}
use kava_proxy_service.Handlers.{World}
use kava_proxy_service.Config.Intervals.{Url}
use kava_proxy_service.Routing.Host.{Routed}
use kava_proxy_service.Routing.Selection.{new_proxies}
use kava_proxy_service.Clients.CacheClient.{CacheLaws}
use kava_proxy_service.CacheMdw.Cacheable.{HasValidTtls}
use kava_proxy_service.CacheMdw.Response.{is_response_cacheable}
use kava_proxy_service.CacheMdw.RoundTrip.{
  ReadsBack, IsSameQuery, get_cached-cache_query_response, Cached-of_ok,
}
use kava_proxy_service.CacheMdw.ServiceCache.{
  ServiceCache, get_cached_query_response, cache_query_response,
}
use kava_proxy_service.CacheMdw.Middleware.{with_cached, with_cached_response, get_headers_to_cache}
use kava_proxy_service.Service.BodySaver.{Negroni}
use kava_proxy_service.Service.ProxyRequest.{Backend}
use kava_proxy_service.Service.Chain.{ServiceConfig, cache_middleware}
use kava_proxy_service.Service.Hits.{hit_served, hit_writer}
use kava_proxy_service.Service.Misses.{miss-Leaves, miss_writer, miss_request, save_answer}

module _ {S N W : Type 0} (ext : External) (n : Negroni N W) (o : Writer W) (config : ServiceConfig)
    (c : ServiceCache S) where
  -- A request that misses the cache and is answered by a backend whose answer is saved.
  pub record IsSaved (r : Request) (req : Envelope) (backend : Backend) (w : World S W)
      : Type 0 where
    pub error : Error
    pub store : S
    pub routed : Routed
    pub url : Url
    pub decoded : r.context.decoded_request ≡ some req
    pub missed : get_cached_query_response ext c req w.store ≡ (store, err error)
    pub routes :
        (new_proxies ext config.routing).proxy_for_request (with_cached false r) ≡ ok routed
    pub found : routed.found ≡ true
    pub proxied : routed.proxy ≡ some url
    pub runs : (backend url (miss_request r)).panics ≡ false
    pub saves :
        (save_answer ext o c req (miss_writer n o (backend url (miss_request r)) w.writer) store).1
        ≡ ok tt

  -- The second request, with the text of its answer.
  pub record IsAskedAgain (r : Request) (req : Envelope) (result id text : String) : Type 0 where
    pub routed : Routed
    pub decoded : r.context.decoded_request ≡ some req
    pub routes :
        (q : QueryResponse)
        → (new_proxies ext config.routing).proxy_for_request (with_cached_response q r) ≡ ok routed
    pub found : routed.found ≡ true
    pub encoded :
        ext.marshal_response (record {
          version = req.json_rpc_version;
          id = id;
          result = result;
          json_rpc_error = none;
        })
        ≡ some text

  -- The body that the backend has written for the first request, and the headers that are saved.
  abbrev pub saved_answer :
      {r : Request} {req : Envelope} {backend : Backend} {w : World S W}
      → IsSaved r req backend w
      → String
  saved_answer {r} {req} {backend} {w} m =
      (miss_writer n o (backend m.url (miss_request r)) w.writer).saved

  abbrev pub saved_headers :
      {r : Request} {req : Envelope} {backend : Backend} {w : World S W}
      → IsSaved r req backend w
      → Dict String
  saved_headers {r} {req} {backend} {w} m =
      get_headers_to_cache
        (o.header_of (miss_writer n o (backend m.url (miss_request r)) w.writer).inner)
        c.whitelisted_headers

module _ {S N W : Type 0} (ext : External) (n : Negroni N W) (o : Writer W) (config : ServiceConfig)
    (c : ServiceCache S) (laws : CacheLaws c.cache_client) (valid : HasValidTtls c.config)
    (reads : ReadsBack ext c) (enabled : c.cache_enabled ≡ true)
    (serving : config.serving.cache_enabled ≡ true) where
  first_store :
      (r : Request) (req : Envelope) (backend : Backend) (elapsed : ℕ) (w : World S W)
      (m : IsSaved ext n o config c r req backend w)
      → (cache_middleware ext n o config c backend elapsed r w).0.store
        ≡ (cache_query_response ext c req
            (saved_answer ext n o config c m)
            (saved_headers ext n o config c m)
            m.store).0
  first_store r req backend elapsed w m =
      (miss-Leaves ext n o config c backend elapsed r req m.error m.store m.routed m.url w enabled
        serving m.decoded
        (Cached-of_ok ext c req (saved_answer ext n o config c m) (saved_headers ext n o config c m)
          m.store m.saves).cacheable
        m.missed m.routes m.found m.proxied m.runs).1

  -- If the cache is on, the first request misses it, and the answer of its backend is saved, then a
  -- second request with the same method and params is answered from the cache, whatever its backend
  -- does: with the result of the first answer under its own ID and version, and the saved headers.
  -- The first answer was one that decodes, has no error and is not empty. The hypotheses: the cache
  -- obeys the laws of a cache, its times to live are valid, cached JSON is read back, the second
  -- request starts with the store that the first has left, its host has a backend, and its ID and
  -- answer can be encoded.
  pub hit_after_miss :
      (first second : Request) (req req2 : Envelope) (backend backend2 : Backend)
      (elapsed elapsed2 : ℕ) (w w2 : World S W) (id text : String)
      (m : IsSaved ext n o config c first req backend w)
      → IsSameQuery ext c req req2
      → w2.store ≡ (cache_middleware ext n o config c backend elapsed first w).0.store
      → ext.marshal_id req2.id ≡ some id
      → (response : JsonRpcResponse) × (ext.unmarshal_response (saved_answer ext n o config c m)
          ≡ some response)
        × (is_response_cacheable ext response ≡ true)
        × (IsAskedAgain ext n o config c second req2 response.result id text
            → (cache_middleware ext n o config c backend2 elapsed2 second w2).0.writer
              ≡ hit_writer o config.serving second
                  (record {
                    json_rpc_response_result = text +++ "\n";
                    header_map = saved_headers ext n o config c m;
                  })
                  w2.writer)
  hit_after_miss first second req req2 backend backend2 elapsed elapsed2 w w2 id text m same st
        eid =
      let store = first_store first req backend elapsed w m in
      let (response, unmarshaled, cacheable, final, get) =
        get_cached-cache_query_response ext c req req2 (saved_answer ext n o config c m)
          (saved_headers ext n o config c m) m.store id text laws valid reads same m.saves eid in
      (
        response,
        unmarshaled,
        cacheable,
        λ again.
            let q : QueryResponse = (record {
              json_rpc_response_result = text +++ "\n";
              header_map = saved_headers ext n o config c m;
            }) in
            (hit_served ext n o config c backend2 elapsed2 second req2 q
              (get_cached_query_response ext c req2 w2.store).0 again.routed w2 enabled serving
              again.decoded
              (ap (λ x. ((get_cached_query_response ext c req2 w2.store).0, x))
                (ap (λ s. (get_cached_query_response ext c req2 s).1) (st ∙ store)
                  ∙ get again.encoded))
              (again.routes q) again.found).0,
      )
