-- ===== src/Service/Metrics.antt =====
-- The metric of a request, as the finalizer makes it from the context.
use kava_proxy_service.Base.{
  ℕ, String, List, [], ◌∷◌, ◌++◌, Option, none, some, Bool, true, Result, ok, err, panic, ℤ, ◌≡◌,
  ◌≢◌, refl, ap, ◌∙◌,
}
use kava_proxy_service.External.{External, Envelope}
use kava_proxy_service.Http.{Request, ProxyMetadata}
use kava_proxy_service.Handlers.{World}
use kava_proxy_service.Clients.Metrics.{ProxiedRequestMetric}
use kava_proxy_service.Decode.BlockNumber.{extract_block_number}
use kava_proxy_service.CacheMdw.Middleware.{is_request_cached}
use kava_proxy_service.BatchMdw.Middleware.{is_batch_context}
use kava_proxy_service.Service.MetricFields.{read_metric}
use kava_proxy_service.Service.ProxyRequest.{enrich}
use kava_proxy_service.Service.Finalizer.{
  context_metric, after_proxy_finalizer, finalize, save_metric,
}

-- The block number of a metric: left out at an error.
abbrev pub block_or_none : Result ℤ → Option ℤ
block_or_none (ok n) = some n
block_or_none (err e) = none
block_or_none panic = none

saved_once :
    {S W : Type 0} (n : Result ℤ) (m : Option ℤ → ProxiedRequestMetric) (w : World S W)
    → n ≢ panic
    → (save_metric n m w).0.metrics ≡ w.metrics ++ m (block_or_none n) ∷ []
unfolding save_metric
saved_once (ok n) m w h = refl
saved_once (err e) m w h = refl
saved_once panic m w h = absurd (h refl)

context_metric_of :
    (cache_enabled : Bool) (r : Request) (req : Envelope) (start : ℕ) (metadata : ProxyMetadata)
    (elapsed : ℕ) (fwd : List String) (saved : String)
    → r.context.decoded_request ≡ some req
    → r.context.start_time ≡ some start
    → context_metric (enrich cache_enabled metadata elapsed fwd saved r).context
      ≡ some (read_metric (is_request_cached r.context) r req start metadata elapsed fwd)
unfolding context_metric enrich is_request_cached is_batch_context
context_metric_of cache_enabled r req start metadata elapsed fwd saved d t = rw (d, t) refl

-- What the finalizer adds to the metrics, behind the context that the proxy middleware has made.
pub finalizer_metric :
    {S W : Type 0} (ext : External) (cache_enabled : Bool) (r : Request) (req : Envelope)
    (start : ℕ) (metadata : ProxyMetadata) (elapsed : ℕ) (fwd : List String) (saved : String)
    (w : World S W)
    → r.context.decoded_request ≡ some req
    → r.context.start_time ≡ some start
    → extract_block_number ext req ≢ panic
    → (after_proxy_finalizer ext true
        (enrich cache_enabled metadata elapsed fwd saved r)
        w).0.metrics
      ≡ w.metrics
        ++ read_metric
            (is_request_cached r.context)
            r
            req
            start
            metadata
            elapsed
            fwd
            (block_or_none (extract_block_number ext req))
          ∷ []
unfolding after_proxy_finalizer finalize enrich
finalizer_metric ext cache_enabled r req start metadata elapsed fwd saved w d t np =
    ap
      (λ m.
        (finalize ext (enrich cache_enabled metadata elapsed fwd saved r).context.decoded_request m
          w).0.metrics)
      (context_metric_of cache_enabled r req start metadata elapsed fwd saved d t)
    ∙ decoded (enrich cache_enabled metadata elapsed fwd saved r).context.decoded_request (kept d)
  where
    kept :
        r.context.decoded_request ≡ some req
        → (enrich cache_enabled metadata elapsed fwd saved r).context.decoded_request ≡ some req
    kept e = e

    decoded :
        (o : Option Envelope)
        → o ≡ some req
        → (finalize ext o
            (some (read_metric (is_request_cached r.context) r req start metadata elapsed fwd))
            w).0.metrics
          ≡ w.metrics
            ++ read_metric
                (is_request_cached r.context)
                r
                req
                start
                metadata
                elapsed
                fwd
                (block_or_none (extract_block_number ext req))
              ∷ []
    decoded none e = cc e
    decoded (some x) e =
        ap
          (λ y.
            (finalize ext y
              (some (read_metric (is_request_cached r.context) r req start metadata elapsed fwd))
              w).0.metrics)
          e
        ∙ saved_once (extract_block_number ext req) _ w np
