-- ===== src/Service.antt =====
-- service/middleware.go and service/service.go: the writer that keeps the body (BodySaver), the
-- middlewares that decode a request (DecodeRequest), answer it (ProxyRequest) and record its metric
-- (Finalizer), and their composition with those of the other packages (Chain). The other children
-- prove how requests are answered: what later handlers leave alone (Keeps), hits and misses of the
-- cache (Hits, CachedHeaders, Saving, Misses, Answered, HitAfterMiss), the metric
-- (MetricFields, Metrics, Adding, Recorded), and X-Forwarded-For (Forwarded).
pub mod BodySaver
pub mod DecodeRequest
pub mod Finalizer
pub mod ProxyRequest
pub mod Chain
pub mod New
pub mod Endpoints
pub mod Client
pub mod Keeps
pub mod Hits
pub mod Saving
pub mod Misses
pub mod Answered
pub mod CachedHeaders
pub mod HitAfterMiss
pub mod Metrics
pub mod MetricFields
pub mod Adding
pub mod Recorded
pub mod Forwarded
