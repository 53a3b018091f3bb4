-- ===== src/Service/ProxyRequest.antt =====
-- service/middleware.go: createProxyRequestMiddleware. A reverse proxy is what it does to its writer,
-- and whether it panics at the end (`Backend`); `elapsed` is the time that the answer takes.
use kava_proxy_service.Base.{
  ℕ, String, List, [], ◌∷◌, Option, none, some, Bool, not, ◌&&◌, Result, ok, err, panic, Dict,
  lookup, str_eq, ◌+++◌, if◌then◌else◌, split,
}
use kava_proxy_service.External.{External, Envelope, QueryResponse}
use kava_proxy_service.Http.{
  Header, header_get, header_set, header_add, header_values, Request, Context, ProxyMetadata,
  ResponseValue, absent, cached_response, response_bytes, Body, no_body, content, unreadable,
  Writer, WriterCall, call_all,
}
use kava_proxy_service.Config.Intervals.{Url}
use kava_proxy_service.Routing.Host.{Proxies, Routed}
use kava_proxy_service.Handlers.{World, Handler, on_writer}
use kava_proxy_service.CacheMdw.Middleware.{is_request_cached, log_cannot_cast_request_error}
use kava_proxy_service.BatchMdw.Processor.{
  cache_header_key, cache_hit_header_value, cache_miss_header_value,
}
use kava_proxy_service.Service.BodySaver.{
  Negroni, RequestInterceptor, intercept, BodySaver, body_saver, new_body_saver,
}

pub record ReverseProxy : Type 0 where
  pub writer_calls : List WriterCall
  pub panics : Bool

-- What the reverse proxy of a URL does with a request.
abbrev pub Backend : Type 0
Backend = Url → Request → ReverseProxy

-- The part of config.Config that serves responses from the cache.
pub record ServingConfig : Type 0 where
  pub cache_enabled : Bool
  pub hostname_to_access_control_allow_origin_value_map : Dict String
  pub default_access_control_allow_origin_value : String

-- config/config.go
unfoldable pub get_access_control_allow_origin_value : ServingConfig → String → String
get_access_control_allow_origin_value cfg hostname =
    elim (lookup hostname cfg.hostname_to_access_control_allow_origin_value_map) [
      | some value ↦ value
      | none ↦ cfg.default_access_control_allow_origin_value
    ]

abbrev pub last : String → List String → String
last v [] = v
last v (u ∷ us) = last u us

-- The last of several values of X-Forwarded-For replaces them.
unfoldable pub last_forwarded_for : List String → Header → Header
last_forwarded_for (u ∷ v ∷ vs) h = header_set h "X-Forwarded-For" (last v vs)
last_forwarded_for (u ∷ []) h = h
last_forwarded_for [] h = h

unfoldable pub intercept_body : List RequestInterceptor → Body → Body
intercept_body before no_body = no_body
intercept_body before (content text) = content (intercept before text)
intercept_body before (unreadable text) = content (intercept before text)

-- The loop over the cached headers: a header that has a value keeps it.
unfoldable pub add_cached_headers : Dict String → Header → Header
add_cached_headers [] h = h
add_cached_headers ((name, value) ∷ rest) h =
    add_cached_headers rest (
      if str_eq (header_get h name) "" && not (str_eq value "") then header_set h name value else h)

unfoldable pub cached_headers : ServingConfig → String → Dict String → Header → Header
unfolding add_cached_headers get_access_control_allow_origin_value
cached_headers config host headers h =
    let h' = add_cached_headers headers (
      header_set (header_set h cache_header_key cache_hit_header_value) "Content-Type"
        "application/json") in
    let value = get_access_control_allow_origin_value config host in
    if str_eq (header_get h' "Access-Control-Allow-Origin") "" && not (str_eq value "")
    then header_set h' "Access-Control-Allow-Origin" value
    else h'

abbrev pub first_part : List String → String
first_part [] = ""
first_part (p ∷ _) = p

-- The only value of a header, or else a default.
abbrev pub only_value : List String → String → String
only_value (v ∷ []) default = v
only_value [] default = default
only_value (_ ∷ _ ∷ _) default = default

-- The context of the request that is passed on. `forwarded_for` is what the header had at first, and
-- `saved` the body that was written.
unfoldable pub enrich : Bool → ProxyMetadata → ℕ → List String → String → Request → Request
enrich cache_enabled metadata elapsed forwarded_for saved r =
    let ip = first_part (split b':' r.remote_addr) in
    record r {
      context = record r.context {
        latency = some elapsed;
        hostname = some r.host;
        proxy_metadata = some metadata;
        response = if cache_enabled then response_bytes saved else r.context.response;
        request_ip = some (only_value forwarded_for ip);
        referer = some (only_value (header_values r.header "Referer") ("http://" +++ ip));
        origin = some (only_value (header_values r.header "Origin") ("http://" +++ ip));
        user_agent = some (only_value (header_values r.header "User-Agent") "anon");
      };
    }

-- The response that is served from the cache, if the request has one.
unfoldable pub cached_answer : ServingConfig → Context → Option QueryResponse
unfolding is_request_cached
cached_answer config ctx =
    if config.cache_enabled && is_request_cached ctx then typed ctx.response else none
  where
    typed : ResponseValue → Option QueryResponse
    typed absent = none
    typed (cached_response q) = some q
    typed (response_bytes _) = none

-- What is done to the request before it is answered.
unfoldable pub prepare : List RequestInterceptor → List String → Request → Request
unfolding last_forwarded_for intercept_body
prepare before_request forwarded_for r = record r {
  header = last_forwarded_for forwarded_for r.header;
  body = intercept_body before_request r.body;
}

-- An undecoded request is logged.
unfoldable pub has_decoded : Option Envelope → Request → Result Request
unfolding log_cannot_cast_request_error
has_decoded none r = log_cannot_cast_request_error r
has_decoded (some _) r = ok r

module _ {S N W : Type 0} (ext : External) (n : Negroni N W) (o : Writer W) (proxies : Proxies)
    (config : ServingConfig) (before_request after_request : List RequestInterceptor)
    (backend : Backend) (elapsed : ℕ) (next : Handler S (BodySaver N W)) where
  -- Goes on with the writer that keeps the body.
  unfoldable pub run_next : BodySaver N W → Request → World S W → World S W × Result (Unit {0})
  run_next lrw r w =
      let out = next r (record { store = w.store; writer = lrw; metrics = w.metrics }) in
      (record { store = out.0.store; writer = out.0.writer.inner; metrics = out.0.metrics }, out.1)

  -- The rest of the handler, when the answer was written.
  unfoldable pub finish :
      Routed → List String → BodySaver N W → Request → World S W → World S W × Result (Unit {0})
  unfolding run_next enrich
  finish routed forwarded_for lrw r w =
      run_next lrw (enrich config.cache_enabled routed.metadata elapsed forwarded_for lrw.saved r) w

  unfoldable pub serve_cached :
      Routed → List String → QueryResponse → Request → World S W → World S W × Result (Unit {0})
  unfolding finish cached_headers new_body_saver
  serve_cached routed forwarded_for q r w =
      let w1 = o.change_header (λ h. cached_headers config r.host q.header_map h) w.writer in
      let w2 = o.write_body q.json_rpc_response_result w1 in
      finish routed forwarded_for (new_body_saver n o w2) r w

  -- The answer of the reverse proxy; calling a nil proxy panics.
  unfoldable pub serve_backend :
      Routed → List String → Option Url → Request → World S W → World S W × Result (Unit {0})
  unfolding finish new_body_saver body_saver
  serve_backend routed forwarded_for none r w = (w, panic)
  serve_backend routed forwarded_for (some url) r w =
      let w1 =
        o.change_header (λ h. header_add h cache_header_key cache_miss_header_value) w.writer in
      let lrw =
        call_all (body_saver n o after_request) (backend url r).writer_calls
          (new_body_saver n o w1) in
      if (backend url r).panics
      then (record w { writer = lrw.inner }, panic)
      else finish routed forwarded_for lrw r w

  unfoldable pub answer :
      Routed
      → List String
      → Option QueryResponse
      → Request
      → World S W
      → World S W × Result (Unit {0})
  unfolding serve_cached serve_backend
  answer routed forwarded_for (some q) r w = serve_cached routed forwarded_for q r w
  answer routed forwarded_for none r w = serve_backend routed forwarded_for routed.proxy r w

  unfoldable pub proxy_routed : Request → Result Routed → World S W → World S W × Result (Unit {0})
  unfolding answer prepare cached_answer
  proxy_routed r (ok routed) w =
      if not routed.found
      then (
        on_writer
            (λ v.
              o.write_body "no proxy backend configured for request host" (o.write_status 502 v))
            w,
        ok tt,
      )
      else let forwarded_for = header_values r.header "X-Forwarded-For" in
        answer routed forwarded_for (cached_answer config r.context)
          (prepare before_request forwarded_for r) w
  proxy_routed r (err e) w = (w, err e)
  proxy_routed r panic w = (w, panic)

  unfoldable pub proxy_checked : Result Request → World S W → World S W × Result (Unit {0})
  unfolding proxy_routed
  proxy_checked (ok r) w = proxy_routed r (proxies.proxy_for_request r) w
  proxy_checked (err e) w = (w, err e)
  proxy_checked panic w = (w, panic)

  unfoldable pub proxy_request_middleware : Handler S W
  unfolding proxy_checked has_decoded
  proxy_request_middleware r w = proxy_checked (has_decoded r.context.decoded_request r) w
