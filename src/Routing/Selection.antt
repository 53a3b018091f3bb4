-- ===== src/Routing/Selection.antt =====
-- service/proxy.go: NewProxies, over the part of config.Config that it reads.
use kava_proxy_service.Base.{Bool, Dict, ok, if◌then◌else◌}
use kava_proxy_service.External.{External}
use kava_proxy_service.Config.Intervals.{Url, IntervalUrlMap}
use kava_proxy_service.Routing.Host.{
  Proxies, host_proxy_for_request, new_host_proxies, response_backend_default,
  response_backend_pruning,
}
use kava_proxy_service.Routing.Pruning.{PruningOrDefaultProxies, pruning_proxy_for_request}
use kava_proxy_service.Routing.Shard.{new_shard_proxies, shard_proxy_for_request}

pub record RoutingConfig : Type 0 where
  pub proxy_backend_host_url_map_parsed : Dict Url
  pub enable_height_based_routing : Bool
  pub proxy_pruning_backend_host_url_map : Dict Url
  pub enable_sharded_routing : Bool
  pub proxy_shard_backend_host_url_map : Dict IntervalUrlMap

unfoldable pub new_pruning_or_default_proxies : RoutingConfig → PruningOrDefaultProxies
new_pruning_or_default_proxies config = record {
  pruning_proxies =
      new_host_proxies response_backend_pruning config.proxy_pruning_backend_host_url_map;
  default_proxies =
      new_host_proxies response_backend_default config.proxy_backend_host_url_map_parsed;
}

module _ (ext : External) (config : RoutingConfig) where
  -- The proxies for the default and the pruning clusters.
  unfoldable pub baseline_proxies : Proxies
  unfolding new_pruning_or_default_proxies
  baseline_proxies =
      if config.enable_height_based_routing
      then record {
        proxy_for_request =
            λ r. pruning_proxy_for_request ext (new_pruning_or_default_proxies config) r;
      }
      else record {
        proxy_for_request = λ r. ok (
            host_proxy_for_request
              (new_host_proxies response_backend_default config.proxy_backend_host_url_map_parsed)
              r);
      }

  unfoldable pub new_proxies : Proxies
  unfolding baseline_proxies
  new_proxies =
      if config.enable_sharded_routing
      then record {
        proxy_for_request = λ r.
            shard_proxy_for_request ext
              (new_shard_proxies config.proxy_shard_backend_host_url_map baseline_proxies) r;
      }
      else baseline_proxies
