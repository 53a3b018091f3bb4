-- ===== src/Service/DecodeRequest.antt =====
-- service/middleware.go: createDecodeRequestMiddleware. `now` is the time at which a request comes.
-- The requests that are passed on without a decoded request keep their own context.
use kava_proxy_service.Base.{ℕ, String, List, [], ◌∷◌, Option, none, some, str_eq, if◌then◌else◌}
use kava_proxy_service.External.{External, Envelope}
use kava_proxy_service.Http.{Request, Body, no_body, content, unreadable}
use kava_proxy_service.Handlers.{Handler}

abbrev pub with_decoded : ℕ → Envelope → Request → Request
with_decoded now req r = record r {
  context = record r.context { start_time = some now; decoded_request = some req };
}

abbrev pub with_batch : ℕ → List (Option Envelope) → Request → Request
with_batch now batch r = record r {
  context = record r.context { start_time = some now; decoded_batch = some batch };
}

module _ {S W : Type 0} (ext : External) (next batch_processing : Handler S W) (now : ℕ) where
  -- A decoded list of requests: null and the empty list are empty batches.
  unfoldable pub route_batch : Option (List (Option Envelope)) → Handler S W
  route_batch none r w = next r w
  route_batch (some []) r w = next r w
  route_batch (some (b ∷ bs)) r w = batch_processing (with_batch now (b ∷ bs) r) w

  unfoldable pub route_single : String → Option Envelope → Handler S W
  unfolding route_batch
  route_single text none r w = route_batch (ext.unmarshal_requests text) r w
  route_single text (some req) r w = next (with_decoded now req r) w

  unfoldable pub decode_body : Body → Handler S W
  unfolding route_single
  decode_body no_body r w = next r w
  decode_body (unreadable text) r w = next (record r { body = unreadable "" }) w
  decode_body (content text) r w =
      if str_eq text "" then next r w else route_single text (ext.unmarshal_request text) r w

  unfoldable pub decode_request_middleware : Handler S W
  unfolding decode_body
  decode_request_middleware r w = decode_body r.body r w
