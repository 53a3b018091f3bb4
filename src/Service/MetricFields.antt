-- ===== src/Service/MetricFields.antt =====
-- The fields of the metric of a request.
use kava_proxy_service.Base.{
  ℕ, String, List, [], ◌∷◌, Option, none, some, Bool, true, false, ℤ, ◌≡◌, refl, ap, ◌∙◌,
  if◌then◌else◌, lookup-insert, str_eq, split, ◌+++◌, length, ltb, ◌==◌, arith,
}
use kava_proxy_service.External.{Envelope}
use kava_proxy_service.Http.{Header, header_values, header_set, Request, ProxyMetadata, Context}
use kava_proxy_service.Clients.Metrics.{ProxiedRequestMetric}
use kava_proxy_service.BatchMdw.Middleware.{is_batch_context, batch_or_empty}
use kava_proxy_service.Service.ProxyRequest.{
  only_value, first_part, prepare, last_forwarded_for, last,
}
use kava_proxy_service.Service.Forwarded.{xff_canonical}

-- The metric of an answered request, but for the values that are read from its headers, its remote
-- address and its batch.
abbrev pub metric_with :
    Bool
    → Request
    → Envelope
    → ℕ
    → ProxyMetadata
    → ℕ
    → Option ℤ
    → String
    → String
    → String
    → Bool
    → ProxiedRequestMetric
metric_with cached r req start metadata elapsed block_number address agent referer batched =
    record {
      method_name = req.method;
      block_number = block_number;
      response_latency_milliseconds = elapsed;
      hostname = r.host;
      request_ip = address;
      request_time = start;
      user_agent = some agent;
      referer = some referer;
      origin = some referer;
      response_backend = metadata.backend_name;
      response_backend_route = metadata.backend_route;
      cache_hit = cached;
      part_of_batch = batched;
    }

-- The metric with the values that the code reads.
abbrev pub read_metric :
    Bool
    → Request
    → Envelope
    → ℕ
    → ProxyMetadata
    → ℕ
    → List String
    → Option ℤ
    → ProxiedRequestMetric
read_metric cached r req start metadata elapsed fwd block_number =
    let ip = first_part (split b':' r.remote_addr) in
    metric_with cached r req start metadata elapsed block_number (only_value fwd ip)
      (only_value (header_values r.header "User-Agent") "anon")
      (only_value (header_values r.header "Referer") ("http://" +++ ip))
      (is_batch_context r.context)

-- The first of several texts.
abbrev pub first_of : List String → String → String
first_of [] default = default
first_of (v ∷ vs) default = v

-- The value of a header that has exactly one.
abbrev pub single_value : List String → String → String
single_value vs default = if length vs == 1 then first_of vs default else default

-- The request is of a batch that has requests.
abbrev pub has_batch : Option (List (Option Envelope)) → Bool
has_batch none = false
has_batch (some []) = false
has_batch (some (single ∷ batch)) = true

-- The metric of an answered request: the address is the only value of `fwd`, or else the part of the
-- remote address in front of its port.
abbrev pub metric_of :
    Bool
    → Request
    → Envelope
    → ℕ
    → ProxyMetadata
    → ℕ
    → List String
    → Option ℤ
    → ProxiedRequestMetric
metric_of cached r req start metadata elapsed fwd block_number =
    let ip = first_of (split b':' r.remote_addr) "" in
    metric_with cached r req start metadata elapsed block_number (single_value fwd ip)
      (single_value (header_values r.header "User-Agent") "anon")
      (single_value (header_values r.header "Referer") ("http://" +++ ip))
      (has_batch r.context.decoded_batch)

only_value_lem :
    (vs : List String) (default : String) → only_value vs default ≡ single_value vs default
only_value_lem [] default = refl
only_value_lem (v ∷ []) default = refl
only_value_lem (u ∷ v ∷ vs) default = ground arith

first_part_lem : (ps : List String) → first_part ps ≡ first_of ps ""
first_part_lem [] = refl
first_part_lem (p ∷ ps) = refl

is_batch_context_lem : (ctx : Context) → is_batch_context ctx ≡ has_batch ctx.decoded_batch
unfolding is_batch_context
is_batch_context_lem ctx = of_batch ctx.decoded_batch
  where
    of_batch :
        (b : Option (List (Option Envelope))) → ltb 0 (length (batch_or_empty b)) ≡ has_batch b
    of_batch none = refl
    of_batch (some []) = refl
    of_batch (some (x ∷ xs)) = ground arith

pub read_metric-metric_of :
    (cached : Bool) (r : Request) (req : Envelope) (start : ℕ) (metadata : ProxyMetadata)
    (elapsed : ℕ) (fwd : List String) (number : Option ℤ)
    → read_metric cached r req start metadata elapsed fwd number
      ≡ metric_of cached r req start metadata elapsed fwd number
read_metric-metric_of cached r req start metadata elapsed fwd number =
    let with_values = metric_with cached r req start metadata elapsed number in
    let agent = header_values r.header "User-Agent" in
    let referer = header_values r.header "Referer" in
    let ip = first_of (split b':' r.remote_addr) "" in
    ap
      (λ p.
        with_values (only_value fwd p) (only_value agent "anon")
          (only_value referer ("http://" +++ p)) (is_batch_context r.context))
      (first_part_lem (split b':' r.remote_addr))
    ∙ ap
        (λ v.
          with_values v (only_value agent "anon") (only_value referer ("http://" +++ ip))
            (is_batch_context r.context))
        (only_value_lem fwd ip)
    ∙ ap
        (λ v.
          with_values (single_value fwd ip) v (only_value referer ("http://" +++ ip))
            (is_batch_context r.context))
        (only_value_lem agent "anon")
    ∙ ap
        (λ v.
          with_values (single_value fwd ip) (single_value agent "anon") v
            (is_batch_context r.context))
        (only_value_lem referer ("http://" +++ ip))
    ∙ ap
        (λ v.
          with_values (single_value fwd ip) (single_value agent "anon")
            (single_value referer ("http://" +++ ip)) v)
        (is_batch_context_lem r.context)

-- The headers of the request that the metric has, behind X-Forwarded-For.
header_values_kept :
    (h : Header) (v name : String)
    → str_eq "X-Forwarded-For" name ≡ false
    → header_values (header_set h "X-Forwarded-For" v) name ≡ header_values h name
unfolding header_set header_values
header_values_kept h v name e = rw (header_set, header_values, xff_canonical, lookup-insert, e) refl

last_forwarded_for_kept :
    (vs : List String) (h : Header) (name : String)
    → str_eq "X-Forwarded-For" name ≡ false
    → header_values (last_forwarded_for vs h) name ≡ header_values h name
unfolding last_forwarded_for
last_forwarded_for_kept [] h name e = refl
last_forwarded_for_kept (v ∷ []) h name e = refl
last_forwarded_for_kept (u ∷ v ∷ vs) h name e = header_values_kept h (last v vs) name e

pub read_metric-prepare :
    (hit : Bool) (r : Request) (req : Envelope) (start : ℕ) (metadata : ProxyMetadata) (elapsed : ℕ)
    (fwd vs : List String) (number : Option ℤ)
    → read_metric hit (prepare [] vs r) req start metadata elapsed fwd number
      ≡ read_metric hit r req start metadata elapsed fwd number
unfolding prepare
read_metric-prepare hit r req start metadata elapsed fwd vs number =
    rw
      (
        last_forwarded_for_kept vs r.header "Referer" refl,
        last_forwarded_for_kept vs r.header "User-Agent" refl,
      )
      refl
