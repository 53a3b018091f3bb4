-- ===== src/Service/Adding.antt =====
-- The caching middleware adds the metrics that the finalizer behind it adds.
use kava_proxy_service.Base.{
  String, [], ◌∷◌, ◌++◌, Option, none, some, Bool, true, false, not, ◌&&◌, Result, ok, err, panic,
  ◌≡◌, ◌≢◌, refl, ap, ◌∙◌, if◌then◌else◌,
}
use kava_proxy_service.External.{External, Envelope}
use kava_proxy_service.Http.{Request, Writer}
use kava_proxy_service.Handlers.{World, Handler, on_store}
use kava_proxy_service.Clients.Metrics.{ProxiedRequestMetric}
use kava_proxy_service.CacheMdw.Calm.{IsCalm, cache_query_response-calm}
use kava_proxy_service.CacheMdw.ServiceCache.{ServiceCache, is_cacheable, cache_query_response}
use kava_proxy_service.CacheMdw.Middleware.{
  caching_middleware, caching_decoded, caching_checked, cache_bytes, after_caching, bytes_of,
  get_headers_to_cache, is_request_cached,
}

-- A handler that adds one metric.
abbrev pub Adds :
    {S W : Type 0} → ProxiedRequestMetric → World S W → World S W × Result (Unit {0}) → Type 0
Adds m w out = out.0.metrics ≡ w.metrics ++ m ∷ []

either :
    {S W : Type 0} (m : ProxiedRequestMetric) (w : World S W) (x y : World S W × Result (Unit {0}))
    (b : Bool)
    → Adds m w x
    → Adds m w y
    → Adds m w (if b then x else y)
either m w x y true p q = p
either m w x y false p q = q

-- The caching middleware adds what the finalizer adds.
module _ {S W : Type 0} (ext : External) (o : Writer W) (c : ServiceCache S) (next : Handler S W)
    (r : Request) (m : ProxiedRequestMetric) (adds : (w : World S W) → Adds m w (next r w))
    (calm : IsCalm c) where
  after_caching-Adds :
      (out : World S W × Result (Unit {0}))
      → out.1 ≢ panic
      → Adds m out.0 (after_caching ext o c next r out)
  unfolding after_caching
  after_caching-Adds (w, ok _) h = adds w
  after_caching-Adds (w, err _) h = adds w
  after_caching-Adds (w, panic) h = absurd (h refl)

  cache_bytes-Adds :
      (req : Envelope) (cacheable : Bool) (bytes : Option String) (w : World S W)
      → is_cacheable ext (some req) ≢ panic
      → Adds m w (cache_bytes ext o c next req cacheable bytes r w)
  unfolding cache_bytes
  cache_bytes-Adds req cacheable none w h = adds w
  cache_bytes-Adds req cacheable (some b) w h =
      either m w _ _ (not (is_request_cached r.context) && cacheable)
        (after_caching-Adds
          (on_store
            (cache_query_response ext c req b
              (get_headers_to_cache (o.header_of w.writer) c.whitelisted_headers))
            w)
          (cache_query_response-calm ext c calm req b
            (get_headers_to_cache (o.header_of w.writer) c.whitelisted_headers) w.store h))
        (adds w)

  caching_checked-Adds :
      (req : Envelope) (cacheable : Result Bool) (w : World S W) {b : Bool}
      → is_cacheable ext (some req) ≢ panic
      → cacheable ≡ ok b
      → Adds m w (caching_checked ext o c next req cacheable r w)
  unfolding caching_checked
  caching_checked-Adds req (ok b) w h e = cache_bytes-Adds req b (bytes_of r.context.response) w h
  caching_checked-Adds req (err x) w h e = cc e
  caching_checked-Adds req panic w h e = cc e

  caching_decoded-Adds :
      (req : Envelope) (d : Option Envelope) (w : World S W) {b : Bool}
      → is_cacheable ext (some req) ≡ ok b
      → d ≡ some req
      → Adds m w (caching_decoded ext o c next d r w)
  unfolding caching_decoded
  caching_decoded-Adds req none w i e = cc e
  caching_decoded-Adds req (some x) w i e =
      let same : is_cacheable ext (some x) ≡ ok _ = ap (is_cacheable ext) e ∙ i in
      caching_checked-Adds x (is_cacheable ext (some x)) w (λ p. cc (same, p)) same

  pub caching_middleware-Adds :
      (req : Envelope) (w : World S W) {b : Bool}
      → is_cacheable ext (some req) ≡ ok b
      → r.context.decoded_request ≡ some req
      → Adds m w (caching_middleware ext o c next r w)
  unfolding caching_middleware
  caching_middleware-Adds req w i d =
      either m w _ _ (not c.cache_enabled) (adds w)
        (caching_decoded-Adds req r.context.decoded_request w i d)
