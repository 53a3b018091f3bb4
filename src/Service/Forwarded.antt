-- ===== src/Service/Forwarded.antt =====
-- The X-Forwarded-For header that a backend gets.
use kava_proxy_service.Base.{
  ℕ, some, true, false, ok, err, Error, sym, String, List, [], ◌∷◌, ◌++◌, ◌≡◌, refl, ap, ◌∙◌,
  lookup-insert,
}
use kava_proxy_service.Http.{Header, header_values, header_set, canonical, Request, Writer}
use kava_proxy_service.External.{External, Envelope}
use kava_proxy_service.Handlers.{World}
use kava_proxy_service.Config.Intervals.{Url}
use kava_proxy_service.Routing.Host.{Routed}
use kava_proxy_service.Routing.Selection.{new_proxies}
use kava_proxy_service.CacheMdw.ServiceCache.{ServiceCache, get_cached_query_response}
use kava_proxy_service.CacheMdw.Middleware.{with_cached}
use kava_proxy_service.Service.BodySaver.{Negroni}
use kava_proxy_service.Service.ProxyRequest.{
  Backend, prepare, last_forwarded_for, last, finish, run_next,
}
use kava_proxy_service.Service.Chain.{ServiceConfig, cache_middleware, cache_after_proxy_middleware}
use kava_proxy_service.Service.Misses.{cache_middleware_miss, miss_request, miss_writer}

pub xff_canonical : canonical "X-Forwarded-For" ≡ "X-Forwarded-For"
unfolding canonical
xff_canonical = refl

set_values_lem :
    (h : Header) (v : String)
    → header_values (header_set h "X-Forwarded-For" v) "X-Forwarded-For" ≡ v ∷ []
unfolding header_set header_values
set_values_lem h v = rw (header_set, header_values, xff_canonical, lookup-insert) refl

last-append : (u v : String) (us : List String) → last u (us ++ v ∷ []) ≡ v
last-append u v [] = refl
last-append u v (w ∷ us) = last-append w v us

last_forwarded_for_lem :
    (h : Header) (us : List String) (v : String)
    → header_values h "X-Forwarded-For" ≡ us ++ v ∷ []
    → header_values (last_forwarded_for (us ++ v ∷ []) h) "X-Forwarded-For" ≡ v ∷ []
unfolding last_forwarded_for
last_forwarded_for_lem h [] v e = e
last_forwarded_for_lem h (u ∷ []) v e = set_values_lem h v
last_forwarded_for_lem h (u ∷ x ∷ us) v e =
    set_values_lem h (last x (us ++ v ∷ [])) ∙ ap (λ y. y ∷ []) (last-append x v us)

prepare-forwarded_for :
    (r : Request) (us : List String) (v : String)
    → header_values r.header "X-Forwarded-For" ≡ us ++ v ∷ []
    → header_values (miss_request r).header "X-Forwarded-For" ≡ v ∷ []
unfolding prepare
prepare-forwarded_for r us v e =
    ap (λ vs. header_values (last_forwarded_for vs r.header) "X-Forwarded-For") e
    ∙ last_forwarded_for_lem r.header us v e

-- If a decoded request is not found in the cache, and the last of the X-Forwarded-For values of the
-- client's request is `v`, then the reverse proxy that answers it gets a request whose only value is
-- `v`: two backends that do the same with all requests of that one value, whatever they do with other
-- requests, have the same outcome, in the answer, in the cache and in the metrics. The reverse proxy
-- itself appends the address of the client before it sends the request.
pub last_forwarded_for_answered :
    {S N W : Type 0} (ext : External) (n : Negroni N W) (o : Writer W) (config : ServiceConfig)
    (c : ServiceCache S) (backend backend2 : Backend) (elapsed : ℕ) (r : Request) (req : Envelope)
    (e : Error) (s : S) (routed : Routed) (url : Url) (w : World S W) (us : List String)
    (v : String)
    → header_values r.header "X-Forwarded-For" ≡ us ++ v ∷ []
    → c.cache_enabled ≡ true
    → r.context.decoded_request ≡ some req
    → get_cached_query_response ext c req w.store ≡ (s, err e)
    → (new_proxies ext config.routing).proxy_for_request (with_cached false r) ≡ ok routed
    → routed.found ≡ true
    → routed.proxy ≡ some url
    → (backend url (miss_request r)).panics ≡ false
    → ((u : Url) (sent : Request)
        → header_values sent.header "X-Forwarded-For" ≡ v ∷ []
        → backend u sent ≡ backend2 u sent)
    → cache_middleware ext n o config c backend elapsed r w
      ≡ cache_middleware ext n o config c backend2 elapsed r w
unfolding cache_after_proxy_middleware finish run_next
last_forwarded_for_answered ext n o config c backend backend2 elapsed r req e s routed url w us v
      fwd ce d g p f u np agree =
    let sent = miss_request r in
    let same : backend url sent ≡ backend2 url sent =
      agree url sent (prepare-forwarded_for r us v fwd) in
    cache_middleware_miss ext n o config c backend elapsed r req e s routed url w ce d g p f u np
    ∙ ap
        (λ answer.
          finish ext n o (new_proxies ext config.routing) config.serving [] [] backend2 elapsed
            (cache_after_proxy_middleware ext n o config c backend2 elapsed) routed
            (header_values r.header "X-Forwarded-For") (miss_writer n o answer w.writer) sent
            (record w { store = s }))
        same
    ∙ sym (
        cache_middleware_miss ext n o config c backend2 elapsed r req e s routed url w ce d g p f u
          (ap (λ answer. answer.panics) (sym same) ∙ np))
