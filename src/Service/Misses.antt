-- ===== src/Service/Misses.antt =====
-- A request whose response is not in the cache is answered by the backend, and the response is saved.
use kava_proxy_service.Base.{
  ℕ, String, List, [], none, some, Bool, true, false, ◌&&◌, Result, ok, err, Error, ◌≡◌, refl, sym,
  ap, ◌∙◌, subst,
}
use kava_proxy_service.External.{External, Envelope}
use kava_proxy_service.Http.{header_add, header_values, Request, Context, Writer, call_all}
use kava_proxy_service.Handlers.{World, Handler}
use kava_proxy_service.Config.Intervals.{Url}
use kava_proxy_service.Routing.Host.{Proxies, Routed}
use kava_proxy_service.Routing.Selection.{new_proxies}
use kava_proxy_service.CacheMdw.ServiceCache.{
  ServiceCache, get_cached_query_response, cache_query_response, is_cacheable,
}
use kava_proxy_service.CacheMdw.Middleware.{
  after_lookup, with_cached, is_request_cached, get_headers_to_cache,
}
use kava_proxy_service.BatchMdw.Processor.{cache_header_key, cache_miss_header_value}
use kava_proxy_service.Service.BodySaver.{Negroni, BodySaver, body_saver, new_body_saver}
use kava_proxy_service.Service.ProxyRequest.{
  Backend, ReverseProxy, ServingConfig, proxy_routed, answer, serve_backend, finish, run_next,
  enrich, prepare, cached_answer,
}
use kava_proxy_service.Service.Chain.{
  ServiceConfig, cache_middleware, proxy_middleware, cache_after_proxy_middleware,
}
use kava_proxy_service.Service.Keeps.{after_proxy_finalizer-Keeps}
use kava_proxy_service.Service.Hits.{
  Leaves, guard_passed, is_cached_middleware_decoded, proxy_middleware_decoded,
}
use kava_proxy_service.Service.Saving.{if_true, if_false, caching_middleware_saved}

-- The writer behind the answer of the backend.
abbrev pub miss_writer : {N W : Type 0} → Negroni N W → Writer W → ReverseProxy → W → BodySaver N W
miss_writer n o p v = call_all (body_saver n o []) p.writer_calls (
    new_body_saver n o
      (o.change_header (λ h. header_add h cache_header_key cache_miss_header_value) v))

-- The request that the backend gets.
abbrev pub miss_request : Request → Request
miss_request r = prepare [] (header_values r.header "X-Forwarded-For") (with_cached false r)

cached_answer_miss :
    (config : ServingConfig) (ctx : Context)
    → is_request_cached ctx ≡ false
    → cached_answer config ctx ≡ none
unfolding cached_answer
cached_answer_miss config ctx e = if_false _ _ _ (and_false config.cache_enabled _ e)
  where
    and_false : (a b : Bool) → b ≡ false → (a && b) ≡ false
    and_false true b e = e
    and_false false b e = refl

module _ {S N W : Type 0} (ext : External) (n : Negroni N W) (o : Writer W) (proxies : Proxies)
    (config : ServingConfig) (backend : Backend) (elapsed : ℕ)
    (next : Handler S (BodySaver N W)) where
  serve_backend_runs :
      (routed : Routed) (fwd : List String) (url : Url) (r : Request) (w : World S W)
      → (backend url r).panics ≡ false
      → serve_backend ext n o proxies config [] [] backend elapsed next routed fwd (some url) r w
        ≡ finish ext n o proxies config [] [] backend elapsed next routed fwd
            (miss_writer n o (backend url r) w.writer)
            r
            w
  unfolding serve_backend
  serve_backend_runs routed fwd url r w e = if_false _ _ _ e

  proxy_miss :
      (r : Request) (routed : Routed) (url : Url) (w : World S W)
      → is_request_cached r.context ≡ false
      → routed.found ≡ true
      → routed.proxy ≡ some url
      → let fwd = header_values r.header "X-Forwarded-For" in
        let r' = prepare [] fwd r in
        (backend url r').panics ≡ false
        → proxy_routed ext n o proxies config [] [] backend elapsed next r (ok routed) w
          ≡ finish ext n o proxies config [] [] backend elapsed next routed fwd
              (miss_writer n o (backend url r') w.writer)
              r'
              w
  unfolding proxy_routed answer
  proxy_miss r routed url w e f p np =
      let fwd = header_values r.header "X-Forwarded-For" in
      let r' = prepare [] fwd r in
      guard_passed routed.found _ _ f
      ∙ (ap (λ a. answer ext n o proxies config [] [] backend elapsed next routed fwd a r' w)
            (cached_answer_miss config r.context e)
          ∙ (ap
                (λ u.
                  serve_backend ext n o proxies config [] [] backend elapsed next routed fwd u r' w)
                p
              ∙ serve_backend_runs routed fwd url r' w np))

-- What is saved of the answer of the backend.
abbrev pub save_answer :
    {S N W : Type 0}
    → External
    → Writer W
    → ServiceCache S
    → Envelope
    → BodySaver N W
    → S
    → S × Result (Unit {0})
save_answer ext o c req lrw s =
    cache_query_response ext c req lrw.saved
      (get_headers_to_cache (o.header_of lrw.inner) c.whitelisted_headers) s

module _ {S N W : Type 0} (ext : External) (n : Negroni N W) (o : Writer W) (config : ServiceConfig)
    (c : ServiceCache S) (backend : Backend) (elapsed : ℕ) where
  finish_saved :
      (r : Request) (req : Envelope) (routed : Routed) (fwd : List String) (lrw : BodySaver N W)
      (w : World S W)
      → c.cache_enabled ≡ true
      → config.serving.cache_enabled ≡ true
      → r.context.decoded_request ≡ some req
      → is_request_cached r.context ≡ false
      → is_cacheable ext (some req) ≡ ok true
      → Leaves
          (finish ext n o
            (new_proxies ext config.routing)
            config.serving
            []
            []
            backend
            elapsed
            (cache_after_proxy_middleware ext n o config c backend elapsed)
            routed
            fwd
            lrw
            r
            w)
          lrw.inner
          (save_answer ext o c req lrw w.store).0
  unfolding finish run_next cache_after_proxy_middleware enrich is_request_cached body_saver
  finish_saved r req routed fwd lrw w ce se d e ic =
      let r' = enrich config.serving.cache_enabled routed.metadata elapsed fwd lrw.saved r in
      let l =
        caching_middleware_saved ext (body_saver n o []) c _ r'
          (after_proxy_finalizer-Keeps ext config.metric_collection_enabled r') req lrw.saved
          (record { store = w.store; writer = lrw; metrics = w.metrics }) ce d e (if_true _ _ _ se)
          ic in
      (ap (λ v. v.inner) l.0, l.1)

-- A miss, as what follows the answer of the backend.
pub cache_middleware_miss :
    {S N W : Type 0} (ext : External) (n : Negroni N W) (o : Writer W) (config : ServiceConfig)
    (c : ServiceCache S) (backend : Backend) (elapsed : ℕ) (r : Request) (req : Envelope)
    (e : Error) (s : S) (routed : Routed) (url : Url) (w : World S W)
    → c.cache_enabled ≡ true
    → r.context.decoded_request ≡ some req
    → get_cached_query_response ext c req w.store ≡ (s, err e)
    → (new_proxies ext config.routing).proxy_for_request (with_cached false r) ≡ ok routed
    → routed.found ≡ true
    → routed.proxy ≡ some url
    → (backend url (miss_request r)).panics ≡ false
    → cache_middleware ext n o config c backend elapsed r w
      ≡ finish ext n o
          (new_proxies ext config.routing)
          config.serving
          []
          []
          backend
          elapsed
          (cache_after_proxy_middleware ext n o config c backend elapsed)
          routed
          (header_values r.header "X-Forwarded-For")
          (miss_writer n o (backend url (miss_request r)) w.writer)
          (miss_request r)
          (record w { store = s })
unfolding cache_middleware after_lookup prepare is_request_cached
cache_middleware_miss ext n o config c backend elapsed r req e s routed url w ce d g p f u np =
    let r1 = with_cached false r in
    let w1 = record w { store = s } in
    is_cached_middleware_decoded ext o c (proxy_middleware ext n o config c backend elapsed) r req w
      ce d
    ∙ ap
        (λ x.
          after_lookup ext o c (proxy_middleware ext n o config c backend elapsed) r
            (record w { store = x.0 }, x.1))
        g
    ∙ proxy_middleware_decoded ext n o config c backend elapsed r1 w1 req routed d p
    ∙ proxy_miss ext n o (new_proxies ext config.routing) config.serving backend elapsed
        (cache_after_proxy_middleware ext n o config c backend elapsed) r1 routed url w1 refl f u np

-- If the cache is on and the lookup of a decoded, cacheable request fails, and the request's host has
-- a backend that does not panic, then the backend answers the request, and its answer is handed to
-- the cache: the body that was written and the whitelisted headers.
pub miss-Leaves :
    {S N W : Type 0} (ext : External) (n : Negroni N W) (o : Writer W) (config : ServiceConfig)
    (c : ServiceCache S) (backend : Backend) (elapsed : ℕ) (r : Request) (req : Envelope)
    (e : Error) (s : S) (routed : Routed) (url : Url) (w : World S W)
    → c.cache_enabled ≡ true
    → config.serving.cache_enabled ≡ true
    → r.context.decoded_request ≡ some req
    → is_cacheable ext (some req) ≡ ok true
    → get_cached_query_response ext c req w.store ≡ (s, err e)
    → (new_proxies ext config.routing).proxy_for_request (with_cached false r) ≡ ok routed
    → routed.found ≡ true
    → routed.proxy ≡ some url
    → (backend url (miss_request r)).panics ≡ false
    → let lrw = miss_writer n o (backend url (miss_request r)) w.writer in
      Leaves
        (cache_middleware ext n o config c backend elapsed r w)
        lrw.inner
        (save_answer ext o c req lrw s).0
unfolding is_request_cached prepare
miss-Leaves ext n o config c backend elapsed r req e s routed url w ce se d ic g p f u np =
    let lrw = miss_writer n o (backend url (miss_request r)) w.writer in
    subst (λ out. Leaves out lrw.inner (save_answer ext o c req lrw s).0)
      (sym (
        cache_middleware_miss ext n o config c backend elapsed r req e s routed url w ce d g p f u
          np))
      (finish_saved ext n o config c backend elapsed (miss_request r) req routed _ lrw
        (record w { store = s }) ce se d refl ic)
