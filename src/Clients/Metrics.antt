-- ===== src/Clients/Metrics.antt =====
-- clients/database/interface.go: ProxiedRequestMetric, without the ID that the database gives. A nil
-- pointer is `none`.
use kava_proxy_service.Base.{ℕ, String, Option, Bool, ℤ}

pub record ProxiedRequestMetric : Type 0 where
  pub method_name : String
  pub block_number : Option ℤ
  pub response_latency_milliseconds : ℕ
  pub hostname : String
  pub request_ip : String
  pub request_time : ℕ
  pub user_agent : Option String
  pub referer : Option String
  pub origin : Option String
  pub response_backend : String
  pub response_backend_route : String
  pub cache_hit : Bool
  pub part_of_batch : Bool
