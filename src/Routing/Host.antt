-- ===== src/Routing/Host.antt =====
-- service/proxy.go: the interface Proxies and HostProxies. A *httputil.ReverseProxy is the URL that
-- it was made for.
use kava_proxy_service.Base.{
  String, [], ◌∷◌, Option, none, some, Bool, true, false, Dict, lookup, insert, Result,
}
use kava_proxy_service.Http.{Request, ProxyMetadata}
use kava_proxy_service.Config.Intervals.{Url}

-- The results of ProxyForRequest.
pub record Routed : Type 0 where
  pub proxy : Option Url
  pub metadata : ProxyMetadata
  pub found : Bool

pub record Proxies : Type 0 where
  pub proxy_for_request : Request → Result Routed

abbrev pub response_backend_default : String
response_backend_default = "DEFAULT"

abbrev pub response_backend_pruning : String
response_backend_pruning = "PRUNING"

abbrev pub response_backend_shard : String
response_backend_shard = "SHARD"

pub record HostProxies : Type 0 where
  pub name : String
  pub proxy_for_host : Dict Url
  pub target_url_for_host : Dict Url

abbrev pub is_some {ℓ} : {A : Type ℓ} → Option A → Bool
is_some none = false
is_some (some _) = true

-- The zero value of url.URL prints as the empty text.
abbrev pub url_or_zero : Option Url → Url
url_or_zero none = ""
url_or_zero (some u) = u

unfoldable pub host_proxy_for_request : HostProxies → Request → Routed
host_proxy_for_request hbp r = record {
  proxy = lookup r.host hbp.proxy_for_host;
  metadata = record {
    backend_name = hbp.name;
    backend_route = url_or_zero (lookup r.host hbp.target_url_for_host);
    shard_end_height = 0;
  };
  found = is_some (lookup r.host hbp.proxy_for_host);
}

-- The loop that makes a proxy for each host.
unfoldable pub proxies_by_host : Dict Url → Dict Url
proxies_by_host [] = []
proxies_by_host ((host, url) ∷ m) = insert host url (proxies_by_host m)

unfoldable pub new_host_proxies : String → Dict Url → HostProxies
new_host_proxies name host_url_map = record {
  name = name;
  proxy_for_host = proxies_by_host host_url_map;
  target_url_for_host = host_url_map;
}
