-- ===== src/Routing/Heights.antt =====
-- How a request whose params hold a block number is routed, when height-based and sharded routing
-- are enabled and the request's host has a default backend, a pruning backend and shards.
use kava_proxy_service.Base.{
  ℕ, suc, Option, none, some, true, false, ◌≡◌, refl, inl, inr, ℤ, pos, negsuc, ok, arith, zero,
  ◌∙◌, sym, if◌then◌else◌,
}
use kava_proxy_service.External.{External, Envelope}
use kava_proxy_service.Http.{Request}
use kava_proxy_service.Decode.Methods.{method_requires_no_history, method_has_block_number_param}
use kava_proxy_service.Decode.BlockNumber.{parse_block_number_from_params}
use kava_proxy_service.Config.Intervals.{Url, UrlByHeight, new_interval_url_map, lookup_interval}
use kava_proxy_service.Config.Intervals.Containing.{IsInterval, lookup_interval-IsInterval}
use kava_proxy_service.Routing.Host.{Routed, response_backend_default, response_backend_pruning}
use kava_proxy_service.Routing.Pruning.{pruning_proxy_for_request, should_route_to_pruning}
use kava_proxy_service.Routing.Shard.{
  ShardProxies, shard_height, route_to_shard, route_at_height, new_shard_proxies, route_decoded,
  route_by_height,
}
use kava_proxy_service.Routing.Selection.{
  RoutingConfig, new_pruning_or_default_proxies, baseline_proxies, new_proxies,
}
use kava_proxy_service.Routing.ProxyMaps.{lookup-proxies_by_url}
use kava_proxy_service.Routing.Routes.{
  route_to, shard_route, ServesHeight, Serves, IsConfigured, shard_over_default, shard_over_pruning,
  baseline, sharded, pruning_found, default_found,
}

module _ (ext : External) (config : RoutingConfig) (shards : UrlByHeight) (d p : Url) (r : Request)
    (c : IsConfigured config shards d p r.host) (req : Envelope)
    (decoded : r.context.decoded_request ≡ some req)
    (historic : method_requires_no_history req.method ≡ false)
    (numbered : method_has_block_number_param req.method ≡ true) where
  -- The proxies for the default and pruning clusters.
  baseline_at_height :
      (n : ℤ)
      → parse_block_number_from_params ext req.method req.params ≡ ok n
      → (baseline_proxies ext config).proxy_for_request r
        ≡ ok (
            if should_route_to_pruning n
            then route_to response_backend_pruning p
            else route_to response_backend_default d)
  unfolding pruning_proxy_for_request new_pruning_or_default_proxies
  baseline_at_height n e = rw (baseline ext config shards d p r c) (
      ground
        (arith, pruning_found ext config shards d p r c, default_found ext config shards d p r c))

  baseline_pruned :
      (n : ℤ)
      → parse_block_number_from_params ext req.method req.params ≡ ok n
      → should_route_to_pruning n ≡ true
      → (baseline_proxies ext config).proxy_for_request r ≡ ok (route_to response_backend_pruning p)
  baseline_pruned n e h = rw (baseline_at_height n e, h)

  baseline_default :
      (n : ℤ)
      → parse_block_number_from_params ext req.method req.params ≡ ok n
      → should_route_to_pruning n ≡ false
      → (baseline_proxies ext config).proxy_for_request r ≡ ok (route_to response_backend_default d)
  baseline_default n e h = rw (baseline_at_height n e, h)

  abbrev sp : ShardProxies
  sp = new_shard_proxies config.proxy_shard_backend_host_url_map (baseline_proxies ext config)

  pruned_at_height :
      (n : ℤ)
      → parse_block_number_from_params ext req.method req.params ≡ ok n
      → should_route_to_pruning n ≡ true
      → (new_proxies ext config).proxy_for_request r ≡ ok (route_to response_backend_pruning p)
  unfolding new_shard_proxies
  pruned_at_height n e h =
      rw (sharded ext config shards d p r c)
        (shard_over_pruning ext sp r _ p c.shard_backends (baseline_pruned n e h))

  at_height :
      (n : ℤ)
      → parse_block_number_from_params ext req.method req.params ≡ ok n
      → should_route_to_pruning n ≡ false
      → (new_proxies ext config).proxy_for_request r
        ≡ route_at_height sp r (new_interval_url_map shards) (shard_height n)
  unfolding new_shard_proxies route_decoded route_by_height
  at_height n e h =
      rw (sharded ext config shards d p r c) (
        shard_over_default ext sp r _ d c.shard_backends (baseline_default n e h)
        ∙ (ground (arith)))

  shard_answer :
      (n : ℤ)
      → parse_block_number_from_params ext req.method req.params ≡ ok n
      → should_route_to_pruning n ≡ false
      → (h : ℕ) (a : Option (Option Url × ℕ)) → IsInterval shards h a
      → (routed : Routed) × (route_to_shard sp r a ≡ ok routed) × ServesHeight shards d h routed
  unfolding route_to_shard new_shard_proxies
  shard_answer n e np h none i =
      (route_to response_backend_default d, baseline_default n e np, inr (i, refl))
  shard_answer n e np h (some (none, end)) i = absurd (i.1 refl)
  shard_answer n e np h (some (some u, end)) i = (
    shard_route u end,
    rw (lookup-proxies_by_url u end r.host shards _ c.shard_backends (sym i.2)),
    inl (u, end, sym i.2, i.0, i.3, refl),
  )

  -- What the lookup of a height leads to.
  at_shard :
      (n : ℤ)
      → parse_block_number_from_params ext req.method req.params ≡ ok n
      → should_route_to_pruning n ≡ false
      → (h : ℕ) → shard_height n ≡ some h
      → (routed : Routed) × ((new_proxies ext config).proxy_for_request r ≡ ok routed)
        × ServesHeight shards d h routed
  unfolding route_at_height
  at_shard n e np h sh =
      let (routed, same, serves) =
        shard_answer n e np h (lookup_interval (new_interval_url_map shards) h)
          (lookup_interval-IsInterval shards h) in
      (routed, at_height n e np ∙ rw sh same, serves)

  -- A height that no shard is looked up for.
  unsharded :
      (n : ℤ)
      → parse_block_number_from_params ext req.method req.params ≡ ok n
      → should_route_to_pruning n ≡ false
      → shard_height n ≡ none
      → (new_proxies ext config).proxy_for_request r ≡ ok (route_to response_backend_default d)
  unfolding route_at_height new_shard_proxies
  unsharded n e np sh = at_height n e np ∙ rw sh (baseline_default n e np)

  Serves-height :
      (n : ℤ)
      → parse_block_number_from_params ext req.method req.params ≡ ok n
      → (routed : Routed) × ((new_proxies ext config).proxy_for_request r ≡ ok routed)
        × Serves shards d p n routed
  unfolding should_route_to_pruning shard_height route_at_height new_shard_proxies
  Serves-height (pos zero) e =
      (route_to response_backend_default d, unsharded (pos zero) e refl refl, refl)
  Serves-height (pos (suc h)) e = at_shard (pos (suc h)) e refl (suc h) (ground arith)
  Serves-height (negsuc zero) e =
      (route_to response_backend_pruning p, pruned_at_height (negsuc zero) e refl, refl)
  Serves-height (negsuc (suc zero)) e =
      (route_to response_backend_pruning p, pruned_at_height _ e refl, refl)
  Serves-height (negsuc (suc (suc zero))) e = at_shard _ e refl 1 refl
  Serves-height (negsuc (suc (suc (suc zero)))) e =
      (route_to response_backend_pruning p, pruned_at_height _ e refl, refl)
  Serves-height (negsuc (suc (suc (suc (suc zero))))) e =
      (route_to response_backend_pruning p, pruned_at_height _ e refl, refl)
  Serves-height (negsuc (suc (suc (suc (suc (suc zero)))))) e =
      (route_to response_backend_pruning p, pruned_at_height _ e refl, refl)
  Serves-height (negsuc (suc (suc (suc (suc (suc (suc n))))))) e =
      (route_to response_backend_default d, unsharded _ e (ground arith) (ground arith), refl)

-- With height-based and sharded routing enabled, and a host with a default backend, a pruning
-- backend and shards, a request of a method with a block number parameter that needs history, and
-- whose block number is parsed, is routed as follows. The tags latest, pending, finalized, safe and
-- empty go to the pruning backend; a height of at least 1, and earliest as height 1, goes to the
-- shard with the least end height that is not below it, and to the default backend if all shards
-- end below it; height 0 and any other negative number go to the default backend.
pub height_routing :
    (ext : External) (config : RoutingConfig) (shards : UrlByHeight) (d p : Url) (r : Request)
    (req : Envelope) (n : ℤ)
    → IsConfigured config shards d p r.host
    → r.context.decoded_request ≡ some req
    → method_requires_no_history req.method ≡ false
    → method_has_block_number_param req.method ≡ true
    → parse_block_number_from_params ext req.method req.params ≡ ok n
    → (routed : Routed) × ((new_proxies ext config).proxy_for_request r ≡ ok routed)
      × Serves shards d p n routed
height_routing ext config shards d p r req n c decoded historic numbered e =
    Serves-height ext config shards d p r c req decoded historic numbered n e
