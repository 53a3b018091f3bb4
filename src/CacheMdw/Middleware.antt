-- ===== src/CacheMdw/Middleware.antt =====
-- service/cachemdw/is_cached_middleware.go and caching_middleware.go: IsCachedMiddleware, which looks
-- a request up in the cache, and CachingMiddleware, which saves its response.
use kava_proxy_service.Base.{
  String, List, [], ◌∷◌, Option, none, some, Bool, true, false, not, ◌&&◌, Result, ok, err, panic,
  Dict, insert, str_eq, if◌then◌else◌,
}
use kava_proxy_service.External.{External, Envelope, QueryResponse}
use kava_proxy_service.Http.{
  Header, header_get, Request, Context, ResponseValue, absent, cached_response, response_bytes,
  content, read_all, Writer,
}
use kava_proxy_service.Handlers.{World, Handler, on_store}
use kava_proxy_service.CacheMdw.ServiceCache.{
  ServiceCache, is_cacheable, get_cached_query_response, cache_query_response,
}

abbrev pub cached_or_false : Option Bool → Bool
cached_or_false none = false
cached_or_false (some cached) = cached

unfoldable pub is_request_cached : Context → Bool
is_request_cached ctx = cached_or_false ctx.cached

-- Reads the body and puts what it has read in its place.
unfoldable pub log_cannot_cast_request_error : Request → Result Request
log_cannot_cast_request_error r = elim (read_all r.body) [
  | ok read ↦ ok (record r { body = content read.text })
  | err e ↦ err e
  | panic ↦ panic
]

-- Goes on with a request, unless there was a panic.
abbrev pub continue_with :
    {S W : Type 0} → Result Request → Handler S W → World S W → World S W × Result (Unit {0})
continue_with (ok r) next w = next r w
continue_with (err e) next w = (w, err e)
continue_with panic next w = (w, panic)

abbrev pub with_cached : Bool → Request → Request
with_cached cached r = record r { context = record r.context { cached = some cached } }

abbrev pub with_cached_response : QueryResponse → Request → Request
with_cached_response q r = record r {
  context = record r.context { cached = some true; response = cached_response q };
}

-- The headers of `w` that are to be cached.
unfoldable pub get_headers_to_cache : Header → List String → Dict String
get_headers_to_cache h [] = []
get_headers_to_cache h (name ∷ names) =
    let rest = get_headers_to_cache h names in
    if str_eq (header_get h name) "" then rest else insert name (header_get h name) rest

-- The assertion to []byte.
abbrev pub bytes_of : ResponseValue → Option String
bytes_of absent = none
bytes_of (cached_response _) = none
bytes_of (response_bytes b) = some b

module _ {S W : Type 0} (ext : External) (o : Writer W) (c : ServiceCache S)
    (next : Handler S W) where
  -- What follows the lookup: every error counts as a miss.
  unfoldable pub after_lookup :
      Request → World S W × Result QueryResponse → World S W × Result (Unit {0})
  after_lookup r (w, ok q) = next (with_cached_response q r) w
  after_lookup r (w, err _) = next (with_cached false r) w
  after_lookup r (w, panic) = (w, panic)

  unfoldable pub is_cached_decoded : Option Envelope → Handler S W
  unfolding after_lookup log_cannot_cast_request_error
  is_cached_decoded none r w =
      continue_with (log_cannot_cast_request_error r) (λ r'. next (with_cached false r')) w
  is_cached_decoded (some req) r w =
      after_lookup r (on_store (get_cached_query_response ext c req) w)

  unfoldable pub is_cached_middleware : Handler S W
  unfolding is_cached_decoded
  is_cached_middleware r w =
      if not c.cache_enabled then next r w else is_cached_decoded r.context.decoded_request r w

  -- What follows a write to the cache: an error is logged.
  unfoldable pub after_caching :
      Request → World S W × Result (Unit {0}) → World S W × Result (Unit {0})
  after_caching r (w, ok _) = next r w
  after_caching r (w, err _) = next r w
  after_caching r (w, panic) = (w, panic)

  -- What is done with the response in the context, which is there as bytes or not.
  unfoldable pub cache_bytes : Envelope → Bool → Option String → Handler S W
  unfolding after_caching
  cache_bytes req cacheable none r w = next r w
  cache_bytes req cacheable (some bytes) r w =
      if not (is_request_cached r.context) && cacheable
      then after_caching r (
          on_store
            (cache_query_response ext c req bytes
              (get_headers_to_cache (o.header_of w.writer) c.whitelisted_headers))
            w)
      else next r w

  unfoldable pub caching_checked : Envelope → Result Bool → Handler S W
  unfolding cache_bytes
  caching_checked req (ok cacheable) r w =
      cache_bytes req cacheable (bytes_of r.context.response) r w
  caching_checked req (err e) r w = (w, err e)
  caching_checked req panic r w = (w, panic)

  unfoldable pub caching_decoded : Option Envelope → Handler S W
  unfolding caching_checked
  caching_decoded none r w = continue_with (log_cannot_cast_request_error r) next w
  caching_decoded (some req) r w = caching_checked req (is_cacheable ext (some req)) r w

  unfoldable pub caching_middleware : Handler S W
  unfolding caching_decoded
  caching_middleware r w =
      if not c.cache_enabled then next r w else caching_decoded r.context.decoded_request r w
