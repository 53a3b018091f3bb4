-- ===== src/Witnesses/Routing.antt =====
-- Examples for the choice of a backend.
use kava_proxy_service.Base.{
  [], ◌∷◌, none, some, true, false, ok, err, panic, Error, pos, ◌≡◌, ◌⊎◌, refl, arith, lookup,
  contains,
}
use kava_proxy_service.External.{Envelope, string}
use kava_proxy_service.Http.{Request}
use kava_proxy_service.Decode.Methods.{method_requires_no_history, method_has_block_number_param}
use kava_proxy_service.Decode.BlockNumber.{parse_block_number_from_params, parse_block_param}
use kava_proxy_service.Routing.Host.{Routed, response_backend_default, response_backend_pruning}
use kava_proxy_service.Routing.Selection.{new_proxies}
use kava_proxy_service.Routing.Routes.{IsConfigured, route_to, Serves}
use kava_proxy_service.Routing.Heights.{height_routing}
use kava_proxy_service.Routing.Fallbacks.{fallback_routing, short_params_panic}
use kava_proxy_service.Witnesses.Samples.{
  sample_external, sample_routing, sample_shards, sample_request, block_request,
}

sample_routing-IsConfigured : IsConfigured sample_routing sample_shards "archive" "pruning" "api"
unfolding lookup
sample_routing-IsConfigured = record {
  height_based = refl;
  sharded = refl;
  default_backend = refl;
  pruning_backend = refl;
  shard_backends = refl;
}

height_example :
    (routed : Routed) × ((new_proxies sample_external sample_routing).proxy_for_request
        sample_request
      ≡ ok routed)
    × Serves sample_shards "archive" "pruning" (pos 16) routed
unfolding method_requires_no_history method_has_block_number_param contains
    parse_block_number_from_params lookup parse_block_param
height_example =
    height_routing sample_external sample_routing sample_shards "archive" "pruning" sample_request
      block_request (pos 16) sample_routing-IsConfigured refl refl refl refl

fallback_example :
    (sample_request.context.decoded_request ≡ none
      → (new_proxies sample_external sample_routing).proxy_for_request sample_request
        ≡ ok (route_to response_backend_default "archive"))
    × ((req : Envelope)
        → sample_request.context.decoded_request ≡ some req
        → (method_requires_no_history req.method ≡ true
            → (new_proxies sample_external sample_routing).proxy_for_request sample_request
              ≡ ok (route_to response_backend_pruning "pruning"))
          × (method_requires_no_history req.method ≡ false
              → (method_has_block_number_param req.method ≡ false)
                ⊎ ((e : Error) × (parse_block_number_from_params sample_external req.method
                        req.params
                      ≡ err e))
              → (new_proxies sample_external sample_routing).proxy_for_request sample_request
                ≡ ok (route_to response_backend_default "archive")))
fallback_example =
    fallback_routing sample_external sample_routing sample_shards "archive" "pruning" sample_request
      sample_routing-IsConfigured

abbrev short_request : Envelope
short_request = record block_request { method = "eth_getBalance"; params = string "0xa" ∷ [] }

abbrev short_http_request : Request
short_http_request = record sample_request {
  context = record sample_request.context { decoded_request = some short_request };
}

short_params_example :
    (new_proxies sample_external sample_routing).proxy_for_request short_http_request ≡ panic
unfolding method_requires_no_history contains lookup
short_params_example =
    short_params_panic sample_external sample_routing sample_shards "archive" "pruning"
      short_http_request short_request 1 sample_routing-IsConfigured refl refl refl (omega arith)
