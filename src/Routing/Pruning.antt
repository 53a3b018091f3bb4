-- ===== src/Routing/Pruning.antt =====
-- service/shard.go: PruningOrDefaultProxies. Log lines are left out.
use kava_proxy_service.Base.{
  Bool, ◌||◌, not, ℤ, eq_ℤ, Option, none, some, Result, ok, err, panic, if◌then◌else◌,
}
use kava_proxy_service.External.{External, Envelope}
use kava_proxy_service.Http.{Request}
use kava_proxy_service.Decode.Methods.{
  method_requires_no_history, method_has_block_number_param, latest_number, pending_number,
  finalized_number, safe_number, empty_number,
}
use kava_proxy_service.Decode.BlockNumber.{parse_block_number_from_params}
use kava_proxy_service.Routing.Host.{HostProxies, host_proxy_for_request, Routed}

pub record PruningOrDefaultProxies : Type 0 where
  pub pruning_proxies : HostProxies
  pub default_proxies : HostProxies

-- shouldRouteToPruning, with the map blockTagEncodingsRoutedToLatest.
unfoldable pub should_route_to_pruning : ℤ → Bool
should_route_to_pruning height =
    eq_ℤ height latest_number
    || eq_ℤ height finalized_number
    || eq_ℤ height pending_number
    || eq_ℤ height safe_number
    || eq_ℤ height empty_number

-- What follows the parse of the height.
unfoldable pub route_by_height : PruningOrDefaultProxies → Request → Result ℤ → Result Routed
route_by_height hsp r (ok height) =
    if should_route_to_pruning height
    then ok (host_proxy_for_request hsp.pruning_proxies r)
    else ok (host_proxy_for_request hsp.default_proxies r)
route_by_height hsp r (err _) = ok (host_proxy_for_request hsp.default_proxies r)
route_by_height hsp r panic = panic

unfoldable pub route_decoded :
    External → PruningOrDefaultProxies → Request → Option Envelope → Result Routed
route_decoded ext hsp r none = ok (host_proxy_for_request hsp.default_proxies r)
route_decoded ext hsp r (some req) =
    if method_requires_no_history req.method
    then ok (host_proxy_for_request hsp.pruning_proxies r)
    else if not (method_has_block_number_param req.method)
    then ok (host_proxy_for_request hsp.default_proxies r)
    else route_by_height hsp r (parse_block_number_from_params ext req.method req.params)

unfoldable pub pruning_proxy_for_request :
    External → PruningOrDefaultProxies → Request → Result Routed
unfolding route_decoded route_by_height
pruning_proxy_for_request ext hsp r =
    if not (host_proxy_for_request hsp.pruning_proxies r).found
    then ok (host_proxy_for_request hsp.default_proxies r)
    else route_decoded ext hsp r r.context.decoded_request
