-- ===== src/CacheMdw/Calm.antt =====
-- Saving a response does not panic.
use kava_proxy_service.Base.{
  String, Option, none, some, Bool, true, false, Result, ok, err, panic, Error,
  request_not_cacheable, response_not_cacheable, response_not_final, ℤ, Dict, refl, arith, ◌≡◌, ◌≢◌,
}
use kava_proxy_service.Exec.{Exec, from_option, check, then_run, lift, lift_option, require, ◌>>=◌}
use kava_proxy_service.External.{External, Envelope, QueryResponse, JsonRpcResponse}
use kava_proxy_service.CacheMdw.Keys.{get_query_key, key_of_params}
use kava_proxy_service.CacheMdw.Response.{is_response_cacheable, is_response_final}
use kava_proxy_service.CacheMdw.ServiceCache.{
  CacheConfig, ServiceCache, is_cacheable, get_ttl, wrap_ttl, cache_query_response, save_response,
  codec_error,
}

-- Set of the cache client does not panic.
abbrev pub IsCalm : {S : Type 0} → ServiceCache S → Type 0
IsCalm {S} c = (k v : String) (ttl : ℤ) (s : S) → (c.cache_client.set k v ttl s).1 ≢ panic

-- Inversion of a bind that panics behind a step that does not.
bind-eq-panic :
    {S A B : Type 0} (m : Exec S A) (k : A → Exec S B) (s : S)
    → (m s).1 ≢ panic
    → ((m >>= k) s).1 ≡ panic
    → (a : A) × ((k a (m s).0).1 ≡ panic)
bind-eq-panic {S} {A} {B} m k s h e = go (m s).0 (m s).1 h e
  where
    go :
        (s' : S) (r : Result A)
        → r ≢ panic
        → (then_run s' r k).1 ≡ panic
        → (a : A) × ((k a s').1 ≡ panic)
    go s' (ok a) h e = (a, e)
    go s' (err x) h e = cc e
    go s' panic h e = absurd (h refl)

from_option-calm : {A : Type 0} (e : Error) (o : Option A) → from_option e o ≢ panic
from_option-calm e none h = cc h
from_option-calm e (some a) h = cc h

check-calm : (b : Bool) (e : Error) → check b e ≢ panic
check-calm true e h = cc h
check-calm false e h = cc h

get_query_key-calm :
    (ext : External) (prefix : String) (req : Envelope)
    → get_query_key ext prefix (some req) ≢ panic
unfolding get_query_key
get_query_key-calm ext prefix req = keyed (ext.marshal_params req.params)
  where
    keyed : (p : Option String) → key_of_params ext prefix req.method p ≢ panic
    keyed none h = cc h
    keyed (some json) h = cc h

get_ttl-calm : (c : CacheConfig) (method : String) → wrap_ttl (get_ttl c method) ≢ panic
unfolding get_ttl
get_ttl-calm c method h = ground (arith, h)

module _ {S : Type 0} (ext : External) (c : ServiceCache S) (calm : IsCalm c) where
  save_response-calm :
      (req : Envelope) (response : JsonRpcResponse) (headers : Dict String) (s : S)
      → (save_response ext c req response headers s).1 ≢ panic
  unfolding save_response
  save_response-calm req response headers s h =
      let (_, h2) =
        bind-eq-panic (require (is_response_cacheable ext response) response_not_cacheable) _ s
          (check-calm (is_response_cacheable ext response) response_not_cacheable) h in
      let (_, h3) =
        bind-eq-panic (require (is_response_final ext response req.method) response_not_final) _ s
          (check-calm (is_response_final ext response req.method) response_not_final) h2 in
      let (key, h4) =
        bind-eq-panic (lift (get_query_key ext c.cache_prefix (some req))) _ s
          (get_query_key-calm ext c.cache_prefix req) h3 in
      let saved : QueryResponse = (record {
        json_rpc_response_result = response.result;
        header_map = headers;
      }) in
      let (json, h5) =
        bind-eq-panic (lift_option codec_error (ext.marshal_query_response saved)) _ s
          (from_option-calm codec_error (ext.marshal_query_response saved)) h4 in
      let (ttl, h6) =
        bind-eq-panic (lift (wrap_ttl (get_ttl c.config req.method))) _ s
          (get_ttl-calm c.config req.method) h5 in
      calm key json ttl s h6

  pub cache_query_response-calm :
      (req : Envelope) (body : String) (headers : Dict String) (s : S)
      → is_cacheable ext (some req) ≢ panic
      → (cache_query_response ext c req body headers s).1 ≢ panic
  unfolding cache_query_response
  cache_query_response-calm req body headers s known h =
      let (cacheable, h2) = bind-eq-panic (lift (is_cacheable ext (some req))) _ s known h in
      let (_, h3) =
        bind-eq-panic (require cacheable request_not_cacheable) _ s
          (check-calm cacheable request_not_cacheable) h2 in
      let (response, h4) =
        bind-eq-panic (lift_option codec_error (ext.unmarshal_response body)) _ s
          (from_option-calm codec_error (ext.unmarshal_response body)) h3 in
      save_response-calm req response headers s h4
