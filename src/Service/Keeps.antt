-- ===== src/Service/Keeps.antt =====
-- What the handlers behind the answer leave alone: the writer, and for a cached request the store.
use kava_proxy_service.Base.{
  String, Option, none, some, Bool, true, false, not, Result, ok, err, panic, if◌then◌else◌, ◌≡◌,
  refl, ℤ,
}
use kava_proxy_service.External.{External, Envelope}
use kava_proxy_service.Http.{Request, Writer}
use kava_proxy_service.Handlers.{World, Handler}
use kava_proxy_service.Clients.Metrics.{ProxiedRequestMetric}
use kava_proxy_service.CacheMdw.ServiceCache.{ServiceCache, is_cacheable}
use kava_proxy_service.CacheMdw.Middleware.{
  is_request_cached, caching_middleware, caching_decoded, caching_checked, cache_bytes, bytes_of,
}
use kava_proxy_service.Decode.BlockNumber.{extract_block_number}
use kava_proxy_service.Service.Finalizer.{
  after_proxy_finalizer, finalize, save_metric, context_metric,
}

-- The writer and the store are as before.
pub record IsKept {S W : Type 0} (w w' : World S W) : Type 0 where
  pub same_store : w'.store ≡ w.store
  pub same_writer : w'.writer ≡ w.writer

abbrev pub Keeps : {S W : Type 0} → Handler S W → Request → Type 0
Keeps {S} {W} h r = (w : World S W) → IsKept w (h r w).0

either :
    {S W : Type 0} {w : World S W} (x y : World S W × Result (Unit {0})) (b : Bool)
    → IsKept w x.0
    → IsKept w y.0
    → IsKept w (if b then x else y).0
either x y true p q = p
either x y false p q = q

kept : {S W : Type 0} (w : World S W) → IsKept w w
kept w = record { same_store = refl; same_writer = refl }

save_metric-IsKept :
    {S W : Type 0} (n : Result ℤ) (m : Option ℤ → ProxiedRequestMetric) (w : World S W)
    → IsKept w (save_metric n m w).0
unfolding save_metric
save_metric-IsKept (ok n) m w = record { same_store = refl; same_writer = refl }
save_metric-IsKept (err e) m w = record { same_store = refl; same_writer = refl }
save_metric-IsKept panic m w = kept w

module _ {S W : Type 0} (ext : External) where
  finalize-IsKept :
      (d : Option Envelope) (m : Option (Option ℤ → ProxiedRequestMetric)) (w : World S W)
      → IsKept w (finalize ext d m w).0
  unfolding finalize
  finalize-IsKept none m w = kept w
  finalize-IsKept (some req) none w = kept w
  finalize-IsKept (some req) (some m) w = save_metric-IsKept (extract_block_number ext req) m w

  pub after_proxy_finalizer-Keeps :
      (enabled : Bool) (r : Request) → Keeps {S = S} {W = W} (after_proxy_finalizer ext enabled) r
  unfolding after_proxy_finalizer
  after_proxy_finalizer-Keeps true r w =
      finalize-IsKept r.context.decoded_request (context_metric r.context) w
  after_proxy_finalizer-Keeps false r w = kept w

module _ {S W : Type 0} (ext : External) (o : Writer W) (c : ServiceCache S) (next : Handler S W)
    (r : Request) (keeps : Keeps next r) (cached : r.context.cached ≡ some true) where
  cache_bytes_cached :
      (req : Envelope) (cacheable : Bool) (bytes : Option String) (w : World S W)
      → cache_bytes ext o c next req cacheable bytes r w ≡ next r w
  unfolding cache_bytes is_request_cached
  cache_bytes_cached req cacheable none w = refl
  cache_bytes_cached req cacheable (some b) w = rw cached refl

  caching_checked_cached :
      (req : Envelope) (cacheable : Result Bool) (w : World S W)
      → IsKept w (caching_checked ext o c next req cacheable r w).0
  unfolding caching_checked
  caching_checked_cached req (ok b) w =
      rw (cache_bytes_cached req b (bytes_of r.context.response) w) (keeps w)
  caching_checked_cached req (err e) w = kept w
  caching_checked_cached req panic w = kept w

  caching_decoded_cached :
      (req : Envelope) (d : Option Envelope) (w : World S W)
      → d ≡ some req
      → IsKept w (caching_decoded ext o c next d r w).0
  unfolding caching_decoded
  caching_decoded_cached req none w e = cc e
  caching_decoded_cached req (some d) w e = caching_checked_cached d (is_cacheable ext (some d)) w

  -- The response to a request that was cached is not cached again.
  pub caching_middleware_cached :
      (req : Envelope)
      → r.context.decoded_request ≡ some req
      → Keeps (caching_middleware ext o c next) r
  unfolding caching_middleware
  caching_middleware_cached req d w =
      either _ _ (not c.cache_enabled) (keeps w)
        (caching_decoded_cached req r.context.decoded_request w d)
