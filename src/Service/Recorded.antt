-- ===== src/Service/Recorded.antt =====
-- Every answered request leaves one metric.
use kava_proxy_service.Base.{Bool, true, false, Result, ok, err, panic}
use kava_proxy_service.External.{External, QueryResponse}
use kava_proxy_service.Http.{Request}
use kava_proxy_service.CacheMdw.ServiceCache.{ServiceCache}
use kava_proxy_service.CacheMdw.Middleware.{with_cached, with_cached_response}
use kava_proxy_service.Service.BodySaver.{BodySaver}

-- The request as the lookup passes it on.
abbrev pub looked_up : Result QueryResponse → Request → Request
looked_up (ok q) r = with_cached_response q r
looked_up (err _) r = with_cached false r
looked_up panic r = r

abbrev pub is_hit : Result QueryResponse → Bool
is_hit (ok _) = true
is_hit (err _) = false
is_hit panic = false
