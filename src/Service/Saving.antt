-- ===== src/Service/Saving.antt =====
-- The caching middleware hands a response to the cache.
use kava_proxy_service.Base.{
  String, some, Bool, true, false, not, ◌&&◌, Result, ok, err, panic, ◌≡◌, refl, sym, ap, ◌∙◌,
  subst, if◌then◌else◌,
}
use kava_proxy_service.External.{External, Envelope}
use kava_proxy_service.Http.{Request, Writer, response_bytes}
use kava_proxy_service.Handlers.{World, Handler, on_store}
use kava_proxy_service.CacheMdw.ServiceCache.{ServiceCache, cache_query_response, is_cacheable}
use kava_proxy_service.CacheMdw.Middleware.{
  is_request_cached, caching_middleware, caching_decoded, caching_checked, cache_bytes,
  after_caching, get_headers_to_cache, bytes_of,
}
use kava_proxy_service.Service.Keeps.{Keeps}
use kava_proxy_service.Service.Hits.{Leaves, guard_passed}

pub if_true : {A : Type 0} (b : Bool) (x y : A) → b ≡ true → (if b then x else y) ≡ x
if_true true x y e = refl
if_true false x y e = cc e

pub if_false : {A : Type 0} (b : Bool) (x y : A) → b ≡ false → (if b then x else y) ≡ y
if_false true x y e = cc e
if_false false x y e = refl

-- The response is saved, with the headers of the writer.
module _ {S W : Type 0} (ext : External) (o : Writer W) (c : ServiceCache S) (next : Handler S W)
    (r : Request) (keeps : Keeps next r) where
  abbrev pub saved_by : Envelope → String → World S W → World S W × Result (Unit {0})
  saved_by req body w =
      on_store
        (cache_query_response ext c req body
          (get_headers_to_cache (o.header_of w.writer) c.whitelisted_headers))
        w

  after_caching-Leaves :
      (out : World S W × Result (Unit {0}))
      → Leaves (after_caching ext o c next r out) out.0.writer out.0.store
  unfolding after_caching
  after_caching-Leaves (w, ok _) = ((keeps w).same_writer, (keeps w).same_store)
  after_caching-Leaves (w, err _) = ((keeps w).same_writer, (keeps w).same_store)
  after_caching-Leaves (w, panic) = (refl, refl)

  cache_bytes_saved :
      (req : Envelope) (body : String) (w : World S W)
      → is_request_cached r.context ≡ false
      → Leaves
          (cache_bytes ext o c next req true (some body) r w)
          w.writer
          (saved_by req body w).0.store
  unfolding cache_bytes
  cache_bytes_saved req body w e =
      subst (λ out. Leaves out w.writer (saved_by req body w).0.store)
        (sym (if_true _ _ _ (ap (λ b. not b && true) e)))
        (after_caching-Leaves (saved_by req body w))

  caching_checked_saved :
      (req : Envelope) (b : Bool) (body : String) (w : World S W)
      → is_request_cached r.context ≡ false
      → r.context.response ≡ response_bytes body
      → b ≡ true
      → Leaves (caching_checked ext o c next req (ok b) r w) w.writer (saved_by req body w).0.store
  unfolding caching_checked
  caching_checked_saved req b body w e resp eb = rewritten (cache_bytes_saved req body w e)
    where
      rewritten :
          Leaves
            (cache_bytes ext o c next req true (some body) r w)
            w.writer
            (saved_by req body w).0.store
          → Leaves
              (caching_checked ext o c next req (ok b) r w)
              w.writer
              (saved_by req body w).0.store
      rewritten l =
          subst
            (λ x.
              Leaves (cache_bytes ext o c next req x (bytes_of r.context.response) r w) w.writer
                (saved_by req body w).0.store)
            (sym eb)
            (subst
              (λ x.
                Leaves (cache_bytes ext o c next req true (bytes_of x) r w) w.writer
                  (saved_by req body w).0.store)
              (sym resp) l)

  pub caching_middleware_saved :
      (req : Envelope) (body : String) (w : World S W)
      → c.cache_enabled ≡ true
      → r.context.decoded_request ≡ some req
      → is_request_cached r.context ≡ false
      → r.context.response ≡ response_bytes body
      → is_cacheable ext (some req) ≡ ok true
      → Leaves (caching_middleware ext o c next r w) w.writer (saved_by req body w).0.store
  unfolding caching_middleware caching_decoded
  caching_middleware_saved req body w ce d e resp ic =
      subst (λ out. Leaves out w.writer (saved_by req body w).0.store)
        (sym (
          guard_passed c.cache_enabled _ _ ce
          ∙ (ap (λ x. caching_decoded ext o c next x r w) d ∙ checked ic)))
        (caching_checked_saved req true body w e resp refl)
    where
      checked :
          is_cacheable ext (some req) ≡ ok true
          → caching_decoded ext o c next (some req) r w
            ≡ caching_checked ext o c next req (ok true) r w
      checked x = ap (λ y. caching_checked ext o c next req y r w) x
