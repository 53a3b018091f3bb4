-- ===== src/Service/Answered.antt =====
-- What a request that is not in the cache is answered with, and what of it is saved.
use text.Mathlib.TextLemmas.{append_assoc, append-nil, nil-append}
use kava_proxy_service.Base.{
  ℕ, String, List, [], ◌∷◌, none, some, Bool, true, false, not, ◌&&◌, ok, err, Error, ◌≡◌, refl,
  sym, ap, ◌∙◌, ◌+++◌, Dict, lookup, lookup-insert, lookup-nil, str_eq, eq_iff, contains,
  if◌then◌else◌, arith,
}
use kava_proxy_service.External.{External, Envelope}
use kava_proxy_service.Http.{
  Header, header_get, header_add, Request, Writer, WriterCall, write, write_header, update_header,
  call_all, call_writer,
}
use kava_proxy_service.Handlers.{World}
use kava_proxy_service.Config.Intervals.{Url}
use kava_proxy_service.Routing.Host.{Routed}
use kava_proxy_service.Routing.Selection.{new_proxies}
use kava_proxy_service.CacheMdw.ServiceCache.{
  ServiceCache, get_cached_query_response, cache_query_response, is_cacheable,
}
use kava_proxy_service.CacheMdw.Middleware.{with_cached, get_headers_to_cache}
use kava_proxy_service.BatchMdw.Processor.{cache_header_key, cache_miss_header_value}
use kava_proxy_service.Service.BodySaver.{
  Negroni, BodySaver, body_saver, save_write, save_status, intercept, new_body_saver,
}
use kava_proxy_service.Service.ProxyRequest.{Backend}
use kava_proxy_service.Service.Chain.{ServiceConfig, cache_middleware}
use kava_proxy_service.Service.Misses.{miss-Leaves, miss_writer, miss_request}

-- The bodies that are written to a writer, in order.
abbrev pub written_bodies : List WriterCall → String
written_bodies [] = ""
written_bodies (write b ∷ cs) = b +++ written_bodies cs
written_bodies (write_header s ∷ cs) = written_bodies cs
written_bodies (update_header f ∷ cs) = written_bodies cs

-- The writer of the package negroni writes each body once to the writer that it wraps, of which
-- `body_of` is what was written; a status or a header is no part of it.
pub record WritesThrough {N W : Type 0} (n : Negroni N W) (o : Writer W) (body_of : W → String)
    : Type 0 where
  pub body_of-change_header :
      (f : Header → Header) (v : W) → body_of (o.change_header f v) ≡ body_of v
  pub body_of-negroni_write :
      (b : String) (s : N) (v : W) → body_of (n.negroni_write o b (s, v)).1 ≡ body_of v +++ b
  pub body_of-negroni_write_status :
      (status : ℕ) (s : N) (v : W) → body_of (n.negroni_write_status o status (s, v)).1 ≡ body_of v

same_body : (b : String) → (if str_eq b "" then b else intercept [] b) ≡ b
unfolding intercept
same_body b = either (str_eq b "")
  where
    either : (t : Bool) → (if t then b else b) ≡ b
    either true = refl
    either false = refl

module _ {N W : Type 0} (n : Negroni N W) (o : Writer W) (body_of : W → String)
    (laws : WritesThrough n o body_of) where
  write_saved : (b : String) (v : BodySaver N W) → (save_write n o [] b v).saved ≡ v.saved +++ b
  unfolding save_write save_status
  write_saved b v = either (not (n.written v.negroni))
    where
      v1 : BodySaver N W
      v1 = record v { saved = v.saved +++ b }

      either : (t : Bool) → (if t then save_status n o 200 v1 else v1).saved ≡ v.saved +++ b
      either true = refl
      either false = refl

  status_body :
      (status : ℕ) (v : BodySaver N W) → body_of (save_status n o status v).inner ≡ body_of v.inner
  unfolding save_status
  status_body status v = laws.body_of-negroni_write_status status v.negroni v.inner

  write_body :
      (b : String) (v : BodySaver N W)
      → body_of (save_write n o [] b v).inner ≡ body_of v.inner +++ b
  unfolding save_write
  write_body b v =
      laws.body_of-negroni_write _ _ _
      ∙ ap (λ t. body_of (v2 (not (n.written v.negroni))).inner +++ t) (same_body b)
      ∙ ap (λ t. t +++ b) (either (not (n.written v.negroni)))
    where
      v1 : BodySaver N W
      v1 = record v { saved = v.saved +++ b }

      v2 : Bool → BodySaver N W
      v2 t = if t then save_status n o 200 v1 else v1

      either : (t : Bool) → body_of (v2 t).inner ≡ body_of v.inner
      either true = status_body 200 v1
      either false = refl

  -- The body that is kept, and the body of the writer behind it.
  saved-call_all :
      (cs : List WriterCall) (v : BodySaver N W)
      → (call_all (body_saver n o []) cs v).saved ≡ v.saved +++ written_bodies cs
  unfolding body_saver
  saved-call_all [] v = sym (append-nil v.saved)
  saved-call_all (write b ∷ cs) v =
      saved-call_all cs (save_write n o [] b v)
      ∙ ap (λ t. t +++ written_bodies cs) (write_saved b v)
      ∙ append_assoc v.saved b (written_bodies cs)
  saved-call_all (write_header s ∷ cs) v =
      unfold save_status in saved-call_all cs (save_status n o s v)
  saved-call_all (update_header f ∷ cs) v =
      saved-call_all cs (call_writer (body_saver n o []) (update_header f) v)

  body-call_all :
      (cs : List WriterCall) (v : BodySaver N W)
      → body_of (call_all (body_saver n o []) cs v).inner ≡ body_of v.inner +++ written_bodies cs
  unfolding body_saver
  body-call_all [] v = sym (append-nil (body_of v.inner))
  body-call_all (write b ∷ cs) v =
      body-call_all cs (save_write n o [] b v)
      ∙ ap (λ t. t +++ written_bodies cs) (write_body b v)
      ∙ append_assoc (body_of v.inner) b (written_bodies cs)
  body-call_all (write_header s ∷ cs) v =
      body-call_all cs (save_status n o s v) ∙ ap (λ t. t +++ written_bodies cs) (status_body s v)
  body-call_all (update_header f ∷ cs) v =
      body-call_all cs (call_writer (body_saver n o []) (update_header f) v)
      ∙ ap (λ t. t +++ written_bodies cs) (laws.body_of-change_header f v.inner)

-- The headers have, of the names, those that have a value in the header, with that value.
abbrev pub IsWhitelisted : List String → Header → Dict String → Type 0
IsWhitelisted names h headers =
    (name : String)
    → lookup name headers ≡ (
        if contains names name && not (str_eq (header_get h name) "")
        then some (header_get h name)
        else none)

get_headers_to_cache-IsWhitelisted :
    (names : List String) (h : Header) → IsWhitelisted names h (get_headers_to_cache h names)
unfolding get_headers_to_cache contains
get_headers_to_cache-IsWhitelisted [] h name = lookup-nil name
get_headers_to_cache-IsWhitelisted (x ∷ names) h name = ground (
  arith,
  get_headers_to_cache-IsWhitelisted names h name,
  lookup-insert x name (header_get h x) (get_headers_to_cache h names),
  eq_iff x name,
  eq_iff name x,
)

-- If the cache is on and the lookup of a decoded, cacheable request fails, and the request's host has
-- a backend that does not panic, then what the client gets beyond what its writer had is all bodies
-- that the backend has written, in order, and the cache is handed the same text, with those of the
-- whitelisted headers that have a value in the client's header, each with that value, and no others.
-- The hypotheses say that negroni's writer writes through to the writer of the client.
pub miss_saved :
    {S N W : Type 0} (ext : External) (n : Negroni N W) (o : Writer W) (body_of : W → String)
    (config : ServiceConfig) (c : ServiceCache S) (backend : Backend) (elapsed : ℕ) (r : Request)
    (req : Envelope) (e : Error) (s : S) (routed : Routed) (url : Url) (w : World S W)
    → WritesThrough n o body_of
    → c.cache_enabled ≡ true
    → config.serving.cache_enabled ≡ true
    → r.context.decoded_request ≡ some req
    → is_cacheable ext (some req) ≡ ok true
    → get_cached_query_response ext c req w.store ≡ (s, err e)
    → (new_proxies ext config.routing).proxy_for_request (with_cached false r) ≡ ok routed
    → routed.found ≡ true
    → routed.proxy ≡ some url
    → (backend url (miss_request r)).panics ≡ false
    → let after = (cache_middleware ext n o config c backend elapsed r w).0 in
      let text = written_bodies (backend url (miss_request r)).writer_calls in
      (headers : Dict String) × IsWhitelisted c.whitelisted_headers
        (o.header_of after.writer)
        headers
      × (body_of after.writer ≡ body_of w.writer +++ text)
      × (after.store ≡ (cache_query_response ext c req text headers s).0)
unfolding new_body_saver
miss_saved ext n o body_of config c backend elapsed r req e s routed url w laws ce se d ic g p f u
      np =
    let calls = (backend url (miss_request r)).writer_calls in
    let v =
      new_body_saver n o
        (o.change_header (λ h. header_add h cache_header_key cache_miss_header_value) w.writer) in
    let out =
      miss-Leaves ext n o config c backend elapsed r req e s routed url w ce se d ic g p f u np in
    let after = (cache_middleware ext n o config c backend elapsed r w).0 in
    (
      get_headers_to_cache (o.header_of after.writer) c.whitelisted_headers,
      get_headers_to_cache-IsWhitelisted c.whitelisted_headers (o.header_of after.writer),
      ap body_of out.0
          ∙ body-call_all n o body_of laws calls v
          ∙ ap (λ t. t +++ written_bodies calls) (laws.body_of-change_header _ w.writer),
      out.1
          ∙ ap
              (λ t.
                (cache_query_response ext c req t
                  (get_headers_to_cache
                    (o.header_of (miss_writer n o (backend url (miss_request r)) w.writer).inner)
                    c.whitelisted_headers)
                  s).0)
              (saved-call_all n o body_of laws calls v ∙ nil-append (written_bodies calls))
          ∙ ap
              (λ x.
                (cache_query_response ext c req (written_bodies calls)
                  (get_headers_to_cache (o.header_of x) c.whitelisted_headers) s).0)
              (sym out.0),
    )
