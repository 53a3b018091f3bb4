-- ===== src/Routing/Routes.antt =====
-- The possible answers of the proxies of NewProxies, and what its layers pass on to one another.
use kava_proxy_service.Base.{
  ℕ, suc, ◌≤◌, ◌<◌, String, none, some, true, ◌≡◌, ◌≢◌, ◌⊎◌, ℤ, pos, negsuc, ok, Dict, lookup,
  arith, zero,
}
use kava_proxy_service.External.{External}
use kava_proxy_service.Http.{Request}
use kava_proxy_service.Config.Intervals.{
  Url, UrlByHeight, IntervalUrlMap, url_at, new_interval_url_map,
}
use kava_proxy_service.Routing.Host.{
  Routed, response_backend_default, response_backend_pruning, response_backend_shard,
  host_proxy_for_request, new_host_proxies,
}
use kava_proxy_service.Routing.Pruning.{pruning_proxy_for_request}
use kava_proxy_service.Routing.Shard.{
  ShardProxies, shard_proxy_for_request, new_shard_proxies, route_default, route_decoded,
}
use kava_proxy_service.Routing.Selection.{
  RoutingConfig, new_pruning_or_default_proxies, baseline_proxies, new_proxies,
}
use kava_proxy_service.Routing.ProxyMaps.{lookup-proxies_by_host}

-- The route to the backend of a name, and to a shard.
abbrev pub route_to : String → Url → Routed
route_to name url = record {
  proxy = some url;
  metadata = record { backend_name = name; backend_route = url; shard_end_height = 0 };
  found = true;
}

abbrev pub shard_route : Url → ℕ → Routed
shard_route url shard_end = record {
  proxy = some url;
  metadata = record {
    backend_name = response_backend_shard;
    backend_route = url;
    shard_end_height = shard_end;
  };
  found = true;
}

-- The shard with the least end that is not below the height, or the default backend if all shards
-- end below it.
abbrev pub ServesHeight : UrlByHeight → Url → ℕ → Routed → Type 0
ServesHeight shards d height routed =
    ((u : Url) × (e : ℕ) × (url_at e shards ≡ some u)
      × (height ≤ e)
      × ((k : ℕ) → url_at k shards ≢ none → height ≤ k → e ≤ k)
      × (routed ≡ shard_route u e))
    ⊎ (((k : ℕ) → url_at k shards ≢ none → k < height)
        × (routed ≡ route_to response_backend_default d))

-- The tags: -1 latest, -2 pending, -3 earliest, -4 finalized, -5 safe, -6 empty.
abbrev pub Serves : UrlByHeight → Url → Url → ℤ → Routed → Type 0
Serves shards d p (pos zero) routed = routed ≡ route_to response_backend_default d
Serves shards d p (pos (suc n)) routed = ServesHeight shards d (suc n) routed
Serves shards d p (negsuc zero) routed = routed ≡ route_to response_backend_pruning p
Serves shards d p (negsuc (suc zero)) routed = routed ≡ route_to response_backend_pruning p
Serves shards d p (negsuc (suc (suc zero))) routed = ServesHeight shards d 1 routed
Serves shards d p (negsuc (suc (suc (suc zero)))) routed =
    routed ≡ route_to response_backend_pruning p
Serves shards d p (negsuc (suc (suc (suc (suc zero))))) routed =
    routed ≡ route_to response_backend_pruning p
Serves shards d p (negsuc (suc (suc (suc (suc (suc zero)))))) routed =
    routed ≡ route_to response_backend_pruning p
Serves shards d p (negsuc (suc (suc (suc (suc (suc (suc n))))))) routed =
    routed ≡ route_to response_backend_default d

pub shard_over :
    (ext : External) (sp : ShardProxies) (r : Request) (shards : IntervalUrlMap) (routed : Routed)
    → lookup r.host sp.shards_by_host ≡ some shards
    → sp.default_proxies.proxy_for_request r ≡ ok routed
    → shard_proxy_for_request ext sp r ≡ route_default ext sp r shards routed
unfolding shard_proxy_for_request
shard_over ext sp r shards routed h g = ground arith

pub shard_over_default :
    (ext : External) (sp : ShardProxies) (r : Request) (shards : IntervalUrlMap) (d : Url)
    → lookup r.host sp.shards_by_host ≡ some shards
    → sp.default_proxies.proxy_for_request r ≡ ok (route_to response_backend_default d)
    → shard_proxy_for_request ext sp r ≡ route_decoded ext sp r shards r.context.decoded_request
unfolding route_default
shard_over_default ext sp r shards d h g = shard_over ext sp r shards _ h g

pub shard_over_pruning :
    (ext : External) (sp : ShardProxies) (r : Request) (shards : IntervalUrlMap) (p : Url)
    → lookup r.host sp.shards_by_host ≡ some shards
    → sp.default_proxies.proxy_for_request r ≡ ok (route_to response_backend_pruning p)
    → shard_proxy_for_request ext sp r ≡ ok (route_to response_backend_pruning p)
unfolding route_default
shard_over_pruning ext sp r shards p h g = shard_over ext sp r shards _ h g

-- The host of the request has the two backends and the shards.
pub record IsConfigured (config : RoutingConfig) (shards : UrlByHeight) (d p : Url) (host : String)
    : Type 0 where
  pub height_based : config.enable_height_based_routing ≡ true
  pub sharded : config.enable_sharded_routing ≡ true
  pub default_backend : lookup host config.proxy_backend_host_url_map_parsed ≡ some d
  pub pruning_backend : lookup host config.proxy_pruning_backend_host_url_map ≡ some p
  pub shard_backends :
      lookup host config.proxy_shard_backend_host_url_map ≡ some (new_interval_url_map shards)

pub host_route :
    (name : String) (m : Dict Url) (u : Url) (r : Request)
    → lookup r.host m ≡ some u
    → host_proxy_for_request (new_host_proxies name m) r ≡ route_to name u
unfolding host_proxy_for_request new_host_proxies
host_route name m u r h = rw (lookup-proxies_by_host, h)

-- The two layers of proxies that NewProxies makes, and what the inner ones answer.
module _ (ext : External) (config : RoutingConfig) (shards : UrlByHeight) (d p : Url) (r : Request)
    (c : IsConfigured config shards d p r.host) where
  pub baseline : baseline_proxies ext config ≡ record {
    proxy_for_request =
        λ r. pruning_proxy_for_request ext (new_pruning_or_default_proxies config) r;
  }
  unfolding baseline_proxies
  baseline = rw c.height_based

  pub sharded : new_proxies ext config ≡ record {
    proxy_for_request = λ r.
        shard_proxy_for_request ext
          (new_shard_proxies config.proxy_shard_backend_host_url_map (baseline_proxies ext config))
          r;
  }
  unfolding new_proxies
  sharded = rw c.sharded

  pub pruning_found :
      host_proxy_for_request
        (new_host_proxies response_backend_pruning config.proxy_pruning_backend_host_url_map)
        r
      ≡ route_to response_backend_pruning p
  pruning_found =
      host_route response_backend_pruning config.proxy_pruning_backend_host_url_map p r
        c.pruning_backend

  pub default_found :
      host_proxy_for_request
        (new_host_proxies response_backend_default config.proxy_backend_host_url_map_parsed)
        r
      ≡ route_to response_backend_default d
  default_found =
      host_route response_backend_default config.proxy_backend_host_url_map_parsed d r
        c.default_backend
