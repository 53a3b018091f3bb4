-- ===== src/Service/Finalizer.antt =====
-- service/middleware.go: createAfterProxyFinalizer. The metric is handed to the database by a
-- goroutine; `metrics` holds what was handed over.
use kava_proxy_service.Base.{
  [], ◌∷◌, ◌++◌, Option, none, some, Bool, not, Result, ok, err, panic, ℤ, if◌then◌else◌,
}
use kava_proxy_service.External.{External, Envelope}
use kava_proxy_service.Http.{Context}
use kava_proxy_service.Handlers.{World, Handler}
use kava_proxy_service.Clients.Metrics.{ProxiedRequestMetric}
use kava_proxy_service.Decode.BlockNumber.{extract_block_number}
use kava_proxy_service.CacheMdw.Middleware.{is_request_cached}
use kava_proxy_service.BatchMdw.Middleware.{is_batch_context}

-- Option's chain: the early returns of a missing value.
infixl 5 ◌>>=◌
abbrev ◌>>=◌ : {A B : Type 0} → Option A → (A → Option B) → Option B
none >>= f = none
some a >>= f = f a

-- The values of the context, without the block number. The code reads the origin from the key of
-- the referer.
unfoldable pub context_metric : Context → Option (Option ℤ → ProxiedRequestMetric)
unfolding is_request_cached is_batch_context
context_metric ctx = do
  decoded ← ctx.decoded_request
  latency ← ctx.latency
  start_time ← ctx.start_time
  hostname ← ctx.hostname
  request_ip ← ctx.request_ip
  user_agent ← ctx.user_agent
  referer ← ctx.referer
  origin ← ctx.referer
  metadata ← ctx.proxy_metadata
  some (λ block_number. record {
    method_name = decoded.method;
    block_number = block_number;
    response_latency_milliseconds = latency;
    hostname = hostname;
    request_ip = request_ip;
    request_time = start_time;
    user_agent = some user_agent;
    referer = some referer;
    origin = some origin;
    response_backend = metadata.backend_name;
    response_backend_route = metadata.backend_route;
    cache_hit = is_request_cached ctx;
    part_of_batch = is_batch_context ctx;
  })

abbrev save : {S W : Type 0} → ProxiedRequestMetric → World S W → World S W
save m w = record w { metrics = w.metrics ++ m ∷ [] }

module _ {S W : Type 0} where
  -- An error of the block number leaves it out.
  unfoldable pub save_metric :
      Result ℤ → (Option ℤ → ProxiedRequestMetric) → World S W → World S W × Result (Unit {0})
  save_metric (ok n) m w = (save (m (some n)) w, ok tt)
  save_metric (err e) m w = (save (m none) w, ok tt)
  save_metric panic m w = (w, panic)

module _ {S W : Type 0} (ext : External) where
  unfoldable pub finalize :
      Option Envelope
      → Option (Option ℤ → ProxiedRequestMetric)
      → World S W
      → World S W × Result (Unit {0})
  unfolding save_metric
  finalize (some req) (some m) w = save_metric (extract_block_number ext req) m w
  finalize (some _) none w = (w, ok tt)
  finalize none _ w = (w, ok tt)

  unfoldable pub after_proxy_finalizer : Bool → Handler S W
  unfolding finalize context_metric
  after_proxy_finalizer metric_collection_enabled r w =
      if not metric_collection_enabled
      then (w, ok tt)
      else finalize r.context.decoded_request (context_metric r.context) w
