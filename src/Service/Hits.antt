-- ===== src/Service/Hits.antt =====
-- A request whose response is in the cache is answered from it, without the backend.
use kava_proxy_service.Base.{
  ℕ, String, List, [], Option, none, some, Bool, true, false, not, Result, ok, ◌≡◌, refl, sym, ap,
  ◌∙◌, subst, if◌then◌else◌,
}
use kava_proxy_service.External.{External, Envelope, QueryResponse}
use kava_proxy_service.Http.{header_values, Request, Context, Writer, cached_response}
use kava_proxy_service.Handlers.{World, Handler, on_store}
use kava_proxy_service.Routing.Host.{Proxies, Routed}
use kava_proxy_service.Routing.Selection.{new_proxies}
use kava_proxy_service.CacheMdw.ServiceCache.{ServiceCache, get_cached_query_response}
use kava_proxy_service.CacheMdw.Middleware.{
  is_cached_middleware, is_cached_decoded, after_lookup, with_cached_response, is_request_cached,
}
use kava_proxy_service.Service.BodySaver.{
  Negroni, BodySaver, body_saver, new_body_saver, RequestInterceptor,
}
use kava_proxy_service.Service.ProxyRequest.{
  Backend, ServingConfig, proxy_request_middleware, proxy_checked, has_decoded, proxy_routed,
  answer, serve_cached, finish, run_next, enrich, prepare, cached_answer, cached_headers,
}
use kava_proxy_service.Service.Chain.{
  ServiceConfig, cache_middleware, proxy_middleware, cache_after_proxy_middleware,
}
use kava_proxy_service.Service.Keeps.{Keeps, after_proxy_finalizer-Keeps, caching_middleware_cached}

-- The writer of a response that is served from the cache.
abbrev pub hit_writer : {W : Type 0} → Writer W → ServingConfig → Request → QueryResponse → W → W
hit_writer o config r q v =
    o.write_body q.json_rpc_response_result
      (o.change_header (λ h. cached_headers config r.host q.header_map h) v)

pub cached_answer_hit :
    (config : ServingConfig) (ctx : Context) (q : QueryResponse)
    → config.cache_enabled ≡ true
    → ctx.cached ≡ some true
    → ctx.response ≡ cached_response q
    → cached_answer config ctx ≡ some q
unfolding cached_answer is_request_cached
cached_answer_hit config ctx q e c resp = rw (e, c, resp) refl

pub guard_passed : {A : Type 0} (b : Bool) (x y : A) → b ≡ true → (if not b then x else y) ≡ y
guard_passed true x y e = refl
guard_passed false x y e = cc e

-- A result is not that of a proxied request unless both agree on the writer and the store.
abbrev pub Leaves : {S W : Type 0} → World S W × Result (Unit {0}) → W → S → Type 0
Leaves out v s = (out.0.writer ≡ v) × (out.0.store ≡ s)

module _ {S N W : Type 0} (ext : External) (n : Negroni N W) (o : Writer W) (proxies : Proxies)
    (config : ServingConfig) (before_request after_request : List RequestInterceptor)
    (backend : Backend) (elapsed : ℕ) (next : Handler S (BodySaver N W)) where
  -- The answer from the cache, if `next` leaves it alone.
  serve_cached_hit :
      (r : Request) (q : QueryResponse) (routed : Routed) (fwd : List String) (w : World S W)
      → r.context.cached ≡ some true
      → ((r' : Request)
          → r'.context.cached ≡ some true
          → r'.context.decoded_request ≡ r.context.decoded_request
          → Keeps next r')
      → Leaves
          (serve_cached ext n o proxies config before_request after_request backend elapsed next
            routed fwd q r w)
          (hit_writer o config r q w.writer)
          w.store
  unfolding serve_cached finish run_next enrich new_body_saver
  serve_cached_hit r q routed fwd w c k =
      let kept = k _ c refl _ in (ap (λ v. v.inner) kept.same_writer, kept.same_store)

  pub proxy_hit :
      (r : Request) (q : QueryResponse) (routed : Routed) (w : World S W)
      → config.cache_enabled ≡ true
      → r.context.cached ≡ some true
      → r.context.response ≡ cached_response q
      → routed.found ≡ true
      → ((r' : Request)
          → r'.context.cached ≡ some true
          → r'.context.decoded_request ≡ r.context.decoded_request
          → Keeps next r')
      → Leaves
          (proxy_routed ext n o proxies config before_request after_request backend elapsed next r
            (ok routed)
            w)
          (hit_writer o config r q w.writer)
          w.store
  unfolding proxy_routed answer prepare
  proxy_hit r q routed w e c resp f k =
      let fwd = header_values r.header "X-Forwarded-For" in
      let r' = prepare before_request fwd r in
      let same =
        guard_passed routed.found _ _ f
        ∙ ap
            (λ a.
              answer ext n o proxies config before_request after_request backend elapsed next routed
                fwd a r' w)
            (cached_answer_hit config r.context q e c resp) in
      subst (λ out. Leaves out (hit_writer o config r q w.writer) w.store) (sym same)
        (serve_cached_hit r' q routed fwd w c k)

pub is_cached_middleware_decoded :
    {S W : Type 0} (ext : External) (o : Writer W) (c : ServiceCache S) (next : Handler S W)
    (r : Request) (req : Envelope) (w : World S W)
    → c.cache_enabled ≡ true
    → r.context.decoded_request ≡ some req
    → is_cached_middleware ext o c next r w
      ≡ after_lookup ext o c next r (on_store (get_cached_query_response ext c req) w)
unfolding is_cached_middleware is_cached_decoded
is_cached_middleware_decoded ext o c next r req w e d =
    guard_passed c.cache_enabled _ _ e ∙ decoded r.context.decoded_request d
  where
    decoded :
        (d : Option Envelope)
        → d ≡ some req
        → is_cached_decoded ext o c next d r w
          ≡ after_lookup ext o c next r (on_store (get_cached_query_response ext c req) w)
    decoded none e = cc e
    decoded (some d) e = cc e

module _ {S N W : Type 0} (ext : External) (n : Negroni N W) (o : Writer W) (config : ServiceConfig)
    (c : ServiceCache S) (backend : Backend) (elapsed : ℕ) where
  pub proxy_middleware_decoded :
      (r : Request) (w : World S W) (req : Envelope) (routed : Routed)
      → r.context.decoded_request ≡ some req
      → (new_proxies ext config.routing).proxy_for_request r ≡ ok routed
      → proxy_middleware ext n o config c backend elapsed r w
        ≡ proxy_routed ext n o
            (new_proxies ext config.routing)
            config.serving
            []
            []
            backend
            elapsed
            (cache_after_proxy_middleware ext n o config c backend elapsed)
            r
            (ok routed)
            w
  unfolding proxy_middleware proxy_request_middleware proxy_checked has_decoded
  proxy_middleware_decoded r w req routed d p =
      ap
        (λ x.
          proxy_checked ext n o (new_proxies ext config.routing) config.serving [] [] backend
            elapsed (cache_after_proxy_middleware ext n o config c backend elapsed) x w)
        (decoded r.context.decoded_request d)
      ∙ routes p
    where
      decoded : (d : Option Envelope) → d ≡ some req → has_decoded d r ≡ ok r
      decoded none e = cc e
      decoded (some _) e = refl

      routes :
          (new_proxies ext config.routing).proxy_for_request r ≡ ok routed
          → proxy_checked ext n o
              (new_proxies ext config.routing)
              config.serving
              []
              []
              backend
              elapsed
              (cache_after_proxy_middleware ext n o config c backend elapsed)
              (ok r)
              w
            ≡ proxy_routed ext n o
                (new_proxies ext config.routing)
                config.serving
                []
                []
                backend
                elapsed
                (cache_after_proxy_middleware ext n o config c backend elapsed)
                r
                (ok routed)
                w
      routes e =
          ap
            (λ x.
              proxy_routed ext n o (new_proxies ext config.routing) config.serving [] [] backend
                elapsed (cache_after_proxy_middleware ext n o config c backend elapsed) r x w)
            e

-- If the cache is on and holds an answer to a decoded request, and there is a backend for the
-- request's host, then the request is answered from the cache, whatever the backend does: with the
-- cached result and headers, and the store is left as the lookup leaves it.
pub hit_served :
    {S N W : Type 0} (ext : External) (n : Negroni N W) (o : Writer W) (config : ServiceConfig)
    (c : ServiceCache S) (backend : Backend) (elapsed : ℕ) (r : Request) (req : Envelope)
    (q : QueryResponse) (s : S) (routed : Routed) (w : World S W)
    → c.cache_enabled ≡ true
    → config.serving.cache_enabled ≡ true
    → r.context.decoded_request ≡ some req
    → get_cached_query_response ext c req w.store ≡ (s, ok q)
    → (new_proxies ext config.routing).proxy_for_request (with_cached_response q r) ≡ ok routed
    → routed.found ≡ true
    → Leaves
        (cache_middleware ext n o config c backend elapsed r w)
        (hit_writer o config.serving r q w.writer)
        s
unfolding cache_middleware after_lookup cache_after_proxy_middleware
hit_served ext n o config c backend elapsed r req q s routed w ce se d g p f =
    let r1 = with_cached_response q r in
    let w1 = record w { store = s } in
    subst (λ out. Leaves out (hit_writer o config.serving r q w.writer) s)
      (sym (
        is_cached_middleware_decoded ext o c (proxy_middleware ext n o config c backend elapsed) r
          req w ce d
        ∙ (looked_up
            ∙ proxy_middleware_decoded ext n o config c backend elapsed r1 w1 req routed d p)))
      (proxy_hit ext n o (new_proxies ext config.routing) config.serving [] [] backend elapsed
        (cache_after_proxy_middleware ext n o config c backend elapsed) r1 q routed w1 se refl refl
        f (λ r' c' d'. after r' c' (d' ∙ d)))
  where
    looked_up :
        after_lookup ext o c
          (proxy_middleware ext n o config c backend elapsed)
          r
          (on_store (get_cached_query_response ext c req) w)
        ≡ proxy_middleware ext n o config c backend elapsed
            (with_cached_response q r)
            (record w { store = s })
    looked_up =
        ap
          (λ x.
            after_lookup ext o c (proxy_middleware ext n o config c backend elapsed) r
              (record w { store = x.0 }, x.1))
          g

    after :
        (r' : Request)
        → r'.context.cached ≡ some true
        → r'.context.decoded_request ≡ some req
        → Keeps (cache_after_proxy_middleware ext n o config c backend elapsed) r'
    after r' c' d' =
        caching_middleware_cached ext (body_saver n o []) c _ r'
          (after_proxy_finalizer-Keeps ext config.metric_collection_enabled r') c' req d'
