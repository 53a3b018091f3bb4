-- ===== src/Service/Chain.antt =====
-- service/service.go: New, the composition of the middlewares. The interceptors are none.
use kava_proxy_service.Base.{ℕ, [], Bool}
use kava_proxy_service.External.{External}
use kava_proxy_service.Http.{Writer}
use kava_proxy_service.Handlers.{Handler}
use kava_proxy_service.Routing.Selection.{RoutingConfig, new_proxies}
use kava_proxy_service.CacheMdw.ServiceCache.{ServiceCache}
use kava_proxy_service.CacheMdw.Middleware.{is_cached_middleware, caching_middleware}
use kava_proxy_service.Service.BodySaver.{Negroni, BodySaver, body_saver}
use kava_proxy_service.Service.DecodeRequest.{decode_request_middleware}
use kava_proxy_service.Service.ProxyRequest.{Backend, ServingConfig, proxy_request_middleware}
use kava_proxy_service.Service.Finalizer.{after_proxy_finalizer}

pub record ServiceConfig : Type 0 where
  pub routing : RoutingConfig
  pub serving : ServingConfig
  pub metric_collection_enabled : Bool

module _ {S N W : Type 0} (ext : External) (n : Negroni N W) (o : Writer W) (config : ServiceConfig)
    (c : ServiceCache S) (backend : Backend) (elapsed : ℕ) where
  unfoldable pub cache_after_proxy_middleware : Handler S (BodySaver N W)
  cache_after_proxy_middleware =
      caching_middleware ext (body_saver n o []) c
        (after_proxy_finalizer ext config.metric_collection_enabled)

  unfoldable pub proxy_middleware : Handler S W
  unfolding cache_after_proxy_middleware
  proxy_middleware =
      proxy_request_middleware ext n o (new_proxies ext config.routing) config.serving [] [] backend
        elapsed cache_after_proxy_middleware

  -- The sequence of middlewares for a single request.
  unfoldable pub cache_middleware : Handler S W
  unfolding proxy_middleware
  cache_middleware = is_cached_middleware ext o c proxy_middleware

module _ {S N W : Type 0} (ext : External) (n : Negroni N W) (o : Writer W) (config : ServiceConfig)
    (c : ServiceCache S) (backend : Backend) (batch_processing : Handler S W)
    (elapsed now : ℕ) where
  -- The default handler of the service.
  unfoldable pub default_handler : Handler S W
  unfolding cache_middleware
  default_handler =
      decode_request_middleware ext (cache_middleware ext n o config c backend elapsed)
        batch_processing now
