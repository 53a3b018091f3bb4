-- ===== src/CacheMdw.antt =====
-- service/cachemdw: keys of the cache (Keys), responses (Response), what is cached and for how long
-- (ServiceCache), and the two middlewares (Middleware). Cacheable and RoundTrip prove which requests
-- are cached, and that a cached response is served again; Calm proves that saving does not panic.
pub mod Keys
pub mod Response
pub mod ServiceCache
pub mod Cacheable
pub mod RoundTrip
pub mod Calm
pub mod Middleware
