-- ===== src/Routing/Fallbacks.antt =====
-- How a request is routed for which no block number is parsed, and that a block number that is
-- missing from the params panics.
use kava_proxy_service.Base.{
  ℕ, String, List, none, some, true, false, ◌≡◌, inl, inr, Error, ok, err, panic, lookup, arith,
  ◌∙◌, ◌⊎◌, ◌≤◌, length, uncacheable_by_block_number, Option-cases,
}
use kava_proxy_service.External.{External, Envelope, Json}
use kava_proxy_service.Http.{Request}
use kava_proxy_service.Decode.Methods.{
  method_requires_no_history, method_has_block_number_param,
  method_name_to_block_number_param_index,
}
use kava_proxy_service.Decode.BlockNumber.{parse_block_number_from_params}
use kava_proxy_service.Decode.Groups.{positions_known}
use kava_proxy_service.Decode.Parsing.{parse_block_number-panic_iff}
use kava_proxy_service.Config.Intervals.{Url, UrlByHeight}
use kava_proxy_service.Routing.Host.{Routed, response_backend_default, response_backend_pruning}
use kava_proxy_service.Routing.Pruning.{pruning_proxy_for_request}
use kava_proxy_service.Routing.Shard.{
  ShardProxies, new_shard_proxies, route_decoded, route_by_height, shard_proxy_for_request,
}
use kava_proxy_service.Routing.Selection.{
  RoutingConfig, new_pruning_or_default_proxies, baseline_proxies, new_proxies,
}
use kava_proxy_service.Routing.Routes.{
  route_to, IsConfigured, shard_over_default, shard_over_pruning, baseline, sharded, pruning_found,
  default_found,
}

unnumbered_uncacheable :
    (ext : External) (method : String) (params : List Json)
    → method_has_block_number_param method ≡ false
    → parse_block_number_from_params ext method params ≡ err uncacheable_by_block_number
unfolding parse_block_number_from_params
unnumbered_uncacheable ext method params h =
    elim (Option-cases (lookup method method_name_to_block_number_param_index)) [
      | inl e ↦ rw (e, parse_block_number_from_params)
      | inr (i, e) ↦ absurd (ground (arith, (positions_known method).0))
    ]

-- What the proxies do when the request is not routed by height.
module _ (ext : External) (config : RoutingConfig) (shards : UrlByHeight) (d p : Url) (r : Request)
    (c : IsConfigured config shards d p r.host) where
  abbrev Answer : Routed → Type 0
  Answer routed = (new_proxies ext config).proxy_for_request r ≡ ok routed

  abbrev sp : ShardProxies
  sp = new_shard_proxies config.proxy_shard_backend_host_url_map (baseline_proxies ext config)

  through_default :
      (baseline_proxies ext config).proxy_for_request r ≡ ok (route_to response_backend_default d)
      → (r.context.decoded_request ≡ none)
        ⊎ ((req : Envelope) × (e : Error) × (r.context.decoded_request ≡ some req)
            × (parse_block_number_from_params ext req.method req.params ≡ err e))
      → Answer (route_to response_backend_default d)
  unfolding new_shard_proxies route_decoded route_by_height
  through_default b (inl u) =
      rw (sharded ext config shards d p r c)
        (shard_over_default ext sp r _ d c.shard_backends b ∙ ground arith)
  through_default b (inr (req, e, u, f)) =
      rw (sharded ext config shards d p r c)
        (shard_over_default ext sp r _ d c.shard_backends b ∙ ground arith)

  through_pruning :
      (baseline_proxies ext config).proxy_for_request r ≡ ok (route_to response_backend_pruning p)
      → Answer (route_to response_backend_pruning p)
  unfolding new_shard_proxies
  through_pruning b =
      rw (sharded ext config shards d p r c) (shard_over_pruning ext sp r _ p c.shard_backends b)

  undecoded : r.context.decoded_request ≡ none → Answer (route_to response_backend_default d)
  unfolding pruning_proxy_for_request new_pruning_or_default_proxies
  undecoded u =
      through_default
        (rw (baseline ext config shards d p r c) (
          ground (
            arith,
            pruning_found ext config shards d p r c,
            default_found ext config shards d p r c,
          )))
        (inl u)

  module _ (req : Envelope) (decoded : r.context.decoded_request ≡ some req) where
    no_history :
        method_requires_no_history req.method ≡ true → Answer (route_to response_backend_pruning p)
    unfolding pruning_proxy_for_request new_pruning_or_default_proxies
    no_history h = through_pruning (
        rw (baseline ext config shards d p r c) (
          ground (
            arith,
            pruning_found ext config shards d p r c,
            default_found ext config shards d p r c,
          )))

    unnumbered :
        method_requires_no_history req.method ≡ false
        → method_has_block_number_param req.method ≡ false
        → Answer (route_to response_backend_default d)
    unfolding pruning_proxy_for_request new_pruning_or_default_proxies
    unnumbered h u =
        through_default
          (rw (baseline ext config shards d p r c) (
            ground (
              arith,
              pruning_found ext config shards d p r c,
              default_found ext config shards d p r c,
            )))
          (inr (req, _, decoded, unnumbered_uncacheable ext req.method req.params u))

    unparsed :
        (e : Error)
        → method_requires_no_history req.method ≡ false
        → parse_block_number_from_params ext req.method req.params ≡ err e
        → Answer (route_to response_backend_default d)
    unfolding pruning_proxy_for_request new_pruning_or_default_proxies
    unparsed e h u =
        through_default
          (rw (baseline ext config shards d p r c) (
            ground (
              arith,
              pruning_found ext config shards d p r c,
              default_found ext config shards d p r c,
            )))
          (inr (req, e, decoded, u))

    panics_below :
        (i : ℕ)
        → method_requires_no_history req.method ≡ false
        → lookup req.method method_name_to_block_number_param_index ≡ some i
        → length req.params ≤ i
        → (baseline_proxies ext config).proxy_for_request r ≡ panic
    unfolding pruning_proxy_for_request new_pruning_or_default_proxies
    panics_below i h l short = rw (baseline ext config shards d p r c) (
        ground (
          arith,
          pruning_found ext config shards d p r c,
          (positions_known req.method).0.1 (ground arith),
          (parse_block_number-panic_iff ext req.method req.params).1 (i, l, short),
        ))

-- With height-based and sharded routing enabled, and a host with a default backend, a pruning
-- backend and shards, a request that was not decoded goes to the default backend. A decoded request
-- goes to the pruning backend if its method requires no history; else it goes to the default
-- backend if its method has no block number parameter or the parse of the block number fails.
pub fallback_routing :
    (ext : External) (config : RoutingConfig) (shards : UrlByHeight) (d p : Url) (r : Request)
    → IsConfigured config shards d p r.host
    → (r.context.decoded_request ≡ none
        → (new_proxies ext config).proxy_for_request r ≡ ok (route_to response_backend_default d))
      × ((req : Envelope)
          → r.context.decoded_request ≡ some req
          → (method_requires_no_history req.method ≡ true
              → (new_proxies ext config).proxy_for_request r
                ≡ ok (route_to response_backend_pruning p))
            × (method_requires_no_history req.method ≡ false
                → (method_has_block_number_param req.method ≡ false)
                  ⊎ ((e : Error) × (parse_block_number_from_params ext req.method req.params
                        ≡ err e))
                → (new_proxies ext config).proxy_for_request r
                  ≡ ok (route_to response_backend_default d)))
fallback_routing ext config shards d p r c = (
  undecoded ext config shards d p r c,
  λ req decoded. (
    no_history ext config shards d p r c req decoded,
    λ h. elim [
      | inl u ↦ unnumbered ext config shards d p r c req decoded h u
      | inr (e, u) ↦ unparsed ext config shards d p r c req decoded e h u
    ],
  ),
)

-- With height-based and sharded routing enabled, and a host with a default backend, a pruning
-- backend and shards, choosing a proxy panics for a request whose method requires history and has
-- a block number parameter at a position that its params do not reach.
pub short_params_panic :
    (ext : External) (config : RoutingConfig) (shards : UrlByHeight) (d p : Url) (r : Request)
    (req : Envelope) (i : ℕ)
    → IsConfigured config shards d p r.host
    → r.context.decoded_request ≡ some req
    → method_requires_no_history req.method ≡ false
    → lookup req.method method_name_to_block_number_param_index ≡ some i
    → length req.params ≤ i
    → (new_proxies ext config).proxy_for_request r ≡ panic
unfolding shard_proxy_for_request new_shard_proxies
short_params_panic ext config shards d p r req i c decoded h l short =
    rw (sharded ext config shards d p r c) (
      ground
        (arith, c.shard_backends, panics_below ext config shards d p r c req decoded i h l short))
