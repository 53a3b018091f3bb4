-- ===== src/Clients.antt =====
-- The clients of the service: the cache (clients/cache), as an interface (CacheClient) that InMemory
-- and Redis fill, the metrics that the database gets (Metrics), and the database (clients/database), as
-- an interface (Database) that Postgres and the database that does nothing fill.
pub mod CacheClient
pub mod InMemory
pub mod Redis
pub mod Metrics
pub mod Database
pub mod Postgres
