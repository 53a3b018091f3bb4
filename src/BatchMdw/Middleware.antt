-- ===== src/BatchMdw/Middleware.antt =====
-- service/batchmdw/batchmdw.go: CreateBatchProcessingMiddleware and IsBatchContext.
use kava_proxy_service.Base.{
  ℕ, String, List, [], ◌∷◌, Option, none, some, Bool, Result, ok, err, panic, length, map, ltb,
  ◌+++◌, if◌then◌else◌,
}
use kava_proxy_service.External.{External, Envelope}
use kava_proxy_service.Http.{Header, Request, Context, content, ResponseWriter}
use kava_proxy_service.BatchMdw.Processor.{SubRequest, Action, request_and_serve}

-- A batch that is not in the context is empty.
abbrev pub batch_or_empty : Option (List (Option Envelope)) → List (Option Envelope)
batch_or_empty none = []
batch_or_empty (some batch) = batch

-- The context of a request of the batch: `null` sets nothing.
abbrev pub single_context : Option Envelope → Context → Context
single_context none ctx = ctx
single_context (some req) ctx = record ctx { decoded_request = some req }

unfoldable pub is_batch_context : Context → Bool
is_batch_context ctx = ltb 0 (length (batch_or_empty ctx.decoded_batch))

abbrev pub sub_request : Request → Option Envelope → String → Request
sub_request r single body = record {
  method = r.method;
  url = r.url;
  host = r.host;
  header = r.header;
  body = content body;
  remote_addr = "";
  context = single_context single r.context;
}

-- The error of RequestAndServe is dropped.
abbrev pub drop_error : ResponseWriter × Result (Unit {0}) → ResponseWriter × Result (Unit {0})
drop_error (w, ok _) = (w, ok tt)
drop_error (w, err _) = (w, ok tt)
drop_error (w, panic) = (w, panic)

module _ (ext : External) where
  -- The loop that makes the requests: one that fails to be made is skipped.
  unfoldable pub sub_requests : Request → List (Option Envelope) → List Request
  sub_requests r [] = []
  sub_requests r (single ∷ batch) =
      let rest = sub_requests r batch in
      elim (ext.marshal_request single) [
        | none ↦ rest
        | some body ↦
            if ext.new_request_ok r.method r.url then sub_request r single body ∷ rest else rest
      ]

  too_large : ℕ → ℕ → String
  too_large size maximum =
      "request batch size is too large ("
      +++ (ext.print_number size +++ (">" +++ (ext.print_number maximum +++ ")")))

  -- `handle` is what the handler of single requests does with each, under the interleaving that
  -- happens; `w` is the header of the unused writer.
  unfoldable pub process_batch :
      ℕ
      → (Request → SubRequest)
      → List (ℕ × Action)
      → Request
      → List (Option Envelope)
      → Header
      → ResponseWriter × Result (Unit {0})
  unfolding sub_requests too_large
  process_batch maximum handle trace r batch w =
      if ltb maximum (length batch)
      then (
        record { header = w; status = some 413; body = too_large (length batch) maximum },
        ok tt,
      )
      else drop_error (request_and_serve ext (map handle (sub_requests r batch)) trace w)

  unfoldable pub batch_processing_middleware :
      ℕ
      → (Request → SubRequest)
      → List (ℕ × Action)
      → Request
      → Header
      → ResponseWriter × Result (Unit {0})
  unfolding process_batch
  batch_processing_middleware maximum handle trace r w =
      process_batch maximum handle trace r (batch_or_empty r.context.decoded_batch) w
