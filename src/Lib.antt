-- ===== src/Lib.antt =====
-- The Kava proxy service sits between the clients of an Ethereum JSON-RPC API and its nodes. It
-- decodes each request, answers it from a cache or from a backend that it chooses by the request's
-- host, method and block number, saves cacheable responses, splits batches into single requests, and
-- records a metric for each request.
--
-- How a request goes through the program (service/service.go):
--   decode_request_middleware  -> batch_processing_middleware, for a list of requests
--                              -> is_cached_middleware, for one request
--   is_cached_middleware       -> proxy_request_middleware -> caching_middleware
--                              -> after_proxy_finalizer
-- Service/Chain composes them as `New` does. The writer that a batch gives to its single requests is
-- BatchMdw/FakeWriter, the client's is `server_writer` of Http/Writers; handlers are generic in it.
--
-- Files and the code they model (paths from the repository's root):
--   Base, Exec        shared helpers: Boolean tests, lists, integers, texts, maps, Go's results, and
--                     a state monad with errors and panics
--   External          what the code calls: JSON, SHA-256, big integers, the Ethereum client
--   Http, Handlers    net/http of the Go library: headers with canonical keys, requests with the
--                     values of their context, writers, handlers over a shared world
--   Decode            decode/evm_rpc.go: method groups, block tags, the block number of a request
--   Config            config/config.go, config/validate.go, config/intervalmap.go: the environment
--                     (Environment, Variables), the raw maps of hosts (HostMaps) and of shards (Shards),
--                     ReadConfig (Reading), Validate (Validation), and the map from heights to shards
--                     (Intervals), with sort.Slice and sort.Search
--   Routing           service/proxy.go, service/shard.go: HostProxies, PruningOrDefaultProxies,
--                     ShardProxies and NewProxies
--   Clients           clients/cache/cache.go, clients/cache/inmemory.go, clients/cache/redis.go: the
--                     interface of a cache, its laws, InMemoryCache and RedisCache;
--                     clients/database/interface.go, clients/database/noop/database.go: the interface of
--                     the database; clients/database/postgres (Postgres): the periods of the partitions,
--                     the transactions that create them, the rows of metrics, and migrations
--   CacheMdw          service/cachemdw: keys, cacheable requests and responses, ServiceCache and its
--                     two middlewares
--   BatchMdw          service/batchmdw: the fake writer, BatchProcessor and the middleware
--   Service           service/middleware.go; the composition (Chain) and New of service/service.go;
--                     service/handlers.go (Endpoints) and service/client.go (Client)
--   Routines          routines: what a tick of each routine does, and the goroutines of the
--                     partitioning routine
--   Entry             main.go, logging/logging.go: init, and which routines are started
--   Witnesses         the theorems at concrete inputs
--
-- Conventions. Fallible code returns `Result`: a value, an error, or a panic; sentinel errors are
-- constructors, other errors a text. Code that changes a state is a function from the state to the
-- state and a result, and a panic keeps the changes made before it. Native numbers are naturals; int64
-- values are integers with `is_int64` where the code checks the range, and times and durations are
-- numbers of nanoseconds. Go's maps are association lists; no theorem depends on their order. Goroutines
-- of a batch are lists of actions, one for each call that takes the mutex, and the processor runs
-- through an interleaving of them. sort.Search is a loop on fuel: the length of the searched range is
-- enough, as each round shortens it. A reverse proxy is what it does to its writer (`Backend`), and
-- the writer of the package negroni is a parameter. Times of the partitions are in UTC, and dates are
-- found by counting days from January 1 of year 1. The loops that try again until the database answers
-- and its lock is obtained run on fuel: one unit for each attempt is enough. The goroutines of the
-- partitioning routine and the one that receives its errors are a step relation: a send on their
-- channel goes on only with a receive of the other goroutine, and the timer ticks only for a positive
-- interval. The state of the Postgres database is a parameter, with laws that say which statements open
-- and end a transaction; the lock of its migrations is released only by an Unlock without an error. The
-- server of Redis is a parameter, with laws that say how long it keeps a key.
--
-- Not modelled: the output of the logger, the HTTP server and the matching of paths by its mux, the
-- options of the connection to Postgres, the text of the queries on stored metrics, and the order in
-- which Go visits a map.
pub mod Base
pub mod External
pub mod Decode
pub mod Config
pub mod Http
pub mod Routing
pub mod Exec
pub mod Handlers
pub mod Clients
pub mod CacheMdw
pub mod BatchMdw
pub mod Service
pub mod Routines
pub mod Entry
pub mod Witnesses
