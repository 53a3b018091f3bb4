-- ===== src/Routing/Shard.antt =====
-- service/shard.go: ShardProxies. Log lines are left out. `proxyByURL` is keyed by pointers to the
-- URLs of the shards; here it is keyed by their texts, since the proxy of a URL depends on its text
-- alone.
use kava_proxy_service.Base.{
  ℕ, [], ◌∷◌, true, ◌||◌, not, ℤ, pos, negsuc, eq_ℤ, lt_ℤ, Option, none, some, Result, ok, err,
  panic, ◌>>=◌, Dict, lookup, insert, str_eq, if◌then◌else◌,
}
use kava_proxy_service.External.{External, Envelope}
use kava_proxy_service.Http.{Request}
use kava_proxy_service.Decode.Methods.{earliest_number}
use kava_proxy_service.Decode.BlockNumber.{parse_block_number_from_params}
use kava_proxy_service.Config.Intervals.{Url, UrlByHeight, IntervalUrlMap, lookup_interval}
use kava_proxy_service.Routing.Host.{
  Proxies, Routed, response_backend_default, response_backend_shard,
}

pub record ShardProxies : Type 0 where
  pub default_proxies : Proxies
  pub shards_by_host : Dict IntervalUrlMap
  pub proxy_by_url : Dict Url

abbrev to_uint64 : ℤ → ℕ
to_uint64 (pos n) = n
to_uint64 (negsuc n) = 0

-- The height to look up: 1 for "earliest", none for the other tags and for heights below 1.
unfoldable pub shard_height : ℤ → Option ℕ
shard_height parsed =
    if eq_ℤ parsed earliest_number
    then some 1
    else if lt_ℤ parsed (pos 1)
    then none
    else some (to_uint64 parsed)

-- The shard that was found; to dereference a nil URL panics.
unfoldable pub route_to_shard : ShardProxies → Request → Option (Option Url × ℕ) → Result Routed
route_to_shard sp r none = sp.default_proxies.proxy_for_request r
route_to_shard sp r (some (none, _)) = panic
route_to_shard sp r (some (some url, shard_end)) = ok (record {
  proxy = lookup url sp.proxy_by_url;
  metadata = record {
    backend_name = response_backend_shard;
    backend_route = url;
    shard_end_height = shard_end;
  };
  found = true;
})

unfoldable pub route_at_height : ShardProxies → Request → IntervalUrlMap → Option ℕ → Result Routed
route_at_height sp r shards none = sp.default_proxies.proxy_for_request r
route_at_height sp r shards (some height) = route_to_shard sp r (lookup_interval shards height)

unfoldable pub route_by_height : ShardProxies → Request → IntervalUrlMap → Result ℤ → Result Routed
route_by_height sp r shards (ok parsed) = route_at_height sp r shards (shard_height parsed)
route_by_height sp r shards (err _) = sp.default_proxies.proxy_for_request r
route_by_height sp r shards panic = panic

unfoldable pub route_decoded :
    External → ShardProxies → Request → IntervalUrlMap → Option Envelope → Result Routed
route_decoded ext sp r shards none = sp.default_proxies.proxy_for_request r
route_decoded ext sp r shards (some req) =
    route_by_height sp r shards (parse_block_number_from_params ext req.method req.params)

-- The guard on the backend that the wrapped proxies choose.
unfoldable pub route_default :
    External → ShardProxies → Request → IntervalUrlMap → Routed → Result Routed
route_default ext sp r shards routed =
    if not (str_eq routed.metadata.backend_name response_backend_default) || not routed.found
    then ok routed
    else route_decoded ext sp r shards r.context.decoded_request

unfoldable pub shard_proxy_for_request : External → ShardProxies → Request → Result Routed
unfolding route_default route_decoded route_by_height route_at_height route_to_shard
shard_proxy_for_request ext sp r = elim (lookup r.host sp.shards_by_host) [
  | none ↦ sp.default_proxies.proxy_for_request r
  | some shards ↦ sp.default_proxies.proxy_for_request r >>= route_default ext sp r shards
]

-- The loops of newShardProxies that make a proxy for each shard's URL.
unfoldable pub add_urls : UrlByHeight → Dict Url → Dict Url
add_urls [] m = m
add_urls ((_, url) ∷ routes) m = insert url url (add_urls routes m)

unfoldable pub proxies_by_url : Dict IntervalUrlMap → Dict Url
unfolding add_urls
proxies_by_url [] = []
proxies_by_url ((_, shards) ∷ hosts) = add_urls shards.url_by_end_height (proxies_by_url hosts)

unfoldable pub new_shard_proxies : Dict IntervalUrlMap → Proxies → ShardProxies
new_shard_proxies shard_host_map beyond = record {
  default_proxies = beyond;
  shards_by_host = shard_host_map;
  proxy_by_url = proxies_by_url shard_host_map;
}
