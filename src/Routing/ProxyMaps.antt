-- ===== src/Routing/ProxyMaps.antt =====
-- The maps of reverse proxies hold a proxy for each host and for each URL of a shard.
use kava_proxy_service.Base.{
  ℕ, String, [], ◌∷◌, some, ◌≡◌, refl, Dict, lookup, lookup-insert, arith, eq_iff,
}
use kava_proxy_service.Config.Intervals.{
  Url, UrlByHeight, IntervalUrlMap, url_at, new_interval_url_map,
}
use kava_proxy_service.Routing.Host.{proxies_by_host}
use kava_proxy_service.Routing.Shard.{add_urls, proxies_by_url}

-- The loop of newHostProxies copies the map of URLs.
pub lookup-proxies_by_host :
    (host : String) (m : Dict Url) → lookup host (proxies_by_host m) ≡ lookup host m
unfolding proxies_by_host lookup
lookup-proxies_by_host host [] = refl
lookup-proxies_by_host host ((k, u) ∷ m) = ground (
  arith,
  eq_iff k host,
  lookup-insert k host u (proxies_by_host m),
  lookup-proxies_by_host host m,
)

lookup-add_urls_old :
    (u : Url) (routes : UrlByHeight) (m : Dict Url)
    → lookup u m ≡ some u
    → lookup u (add_urls routes m) ≡ some u
unfolding add_urls
lookup-add_urls_old u [] m h = h
lookup-add_urls_old u ((k, v) ∷ routes) m h =
    ground
      (arith, eq_iff v u, lookup-insert v u v (add_urls routes m), lookup-add_urls_old u routes m h)

lookup-add_urls_new :
    (u : Url) (e : ℕ) (routes : UrlByHeight) (m : Dict Url)
    → url_at e routes ≡ some u
    → lookup u (add_urls routes m) ≡ some u
unfolding add_urls url_at
lookup-add_urls_new u e [] m h = cc
lookup-add_urls_new u e ((k, v) ∷ routes) m h =
    ground
      (arith, eq_iff v u, lookup-insert v u v (add_urls routes m), lookup-add_urls_new u e routes m)

-- The URL of each shard of a host has its proxy.
pub lookup-proxies_by_url :
    (u : Url) (e : ℕ) (host : String) (m : UrlByHeight) (hosts : Dict IntervalUrlMap)
    → lookup host hosts ≡ some (new_interval_url_map m)
    → url_at e m ≡ some u
    → lookup u (proxies_by_url hosts) ≡ some u
unfolding proxies_by_url lookup new_interval_url_map
lookup-proxies_by_url u e host m [] h g = cc
lookup-proxies_by_url u e host m ((k, s) ∷ hosts) h g = ground (
  arith,
  lookup-add_urls_new u e s.url_by_end_height (proxies_by_url hosts),
  lookup-add_urls_old u s.url_by_end_height (proxies_by_url hosts),
  lookup-proxies_by_url u e host m hosts,
)
