-- ===== src/Http/Requests.antt =====
-- http.Request, with the values that the middlewares put into its context: one field for each
-- context key of service/middleware.go and service/cachemdw/is_cached_middleware.go. `none` is a
-- key that is not set. A value is always stored with the type that its readers assert, but for
-- ResponseContextKey, which holds a *QueryResponse before the proxy and a []byte behind it.
use kava_proxy_service.Base.{ℕ, String, Option, none, List, Bool, true, false, Result, ok, panic}
use kava_proxy_service.External.{Envelope, QueryResponse}
use kava_proxy_service.Http.Headers.{Header}

-- service/proxy.go: ProxyMetadata
pub record ProxyMetadata : Type 0 where
  pub backend_name : String
  pub backend_route : String
  pub shard_end_height : ℕ

pub data ResponseValue : Type 0 where
  absent : ResponseValue
  cached_response : QueryResponse → ResponseValue
  response_bytes : String → ResponseValue

pub record Context : Type 0 where
  pub decoded_request : Option Envelope
  pub decoded_batch : Option (List (Option Envelope))
  pub start_time : Option ℕ
  pub latency : Option ℕ
  pub hostname : Option String
  pub request_ip : Option String
  pub user_agent : Option String
  pub referer : Option String
  pub origin : Option String
  pub proxy_metadata : Option ProxyMetadata
  pub cached : Option Bool
  pub response : ResponseValue

abbrev pub background : Context
background = record {
  decoded_request = none;
  decoded_batch = none;
  start_time = none;
  latency = none;
  hostname = none;
  request_ip = none;
  user_agent = none;
  referer = none;
  origin = none;
  proxy_metadata = none;
  cached = none;
  response = absent;
}

-- The body of a request: nil, its text, or one that fails behind a text.
pub data Body : Type 0 where
  no_body : Body
  content unreadable : String → Body

pub record Request : Type 0 where
  pub method : String
  pub url : String
  pub host : String
  pub header : Header
  pub body : Body
  pub remote_addr : String
  pub context : Context

-- io.ReadAll(r.Body): the text that was read, whether there was no error, and what is left of the
-- body. A nil body panics.
pub record ReadBody : Type 0 where
  pub text : String
  pub complete : Bool
  pub rest : Body

abbrev pub read_all : Body → Result ReadBody
read_all no_body = panic
read_all (content s) = ok (record { text = s; complete = true; rest = content "" })
read_all (unreadable s) = ok (record { text = s; complete = false; rest = unreadable "" })
