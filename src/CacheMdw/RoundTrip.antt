-- ===== src/CacheMdw/RoundTrip.antt =====
-- A response that was cached is served to later requests with the same method and params.
use kava_proxy_service.Base.{
  String, none, some, true, ◌≡◌, ap, ◌∙◌, ok, ℤ, Dict, eq_refl, ◌+++◌, subst, request_not_cacheable,
  response_not_cacheable, response_not_final,
}
use kava_proxy_service.Exec.{lift, lift_option, require, bind-eq-ok, check-eq-ok, from_option-eq-ok}
use kava_proxy_service.External.{External, Envelope, QueryResponse, JsonRpcResponse}
use kava_proxy_service.Clients.CacheClient.{IsTtl, CacheLaws}
use kava_proxy_service.CacheMdw.Keys.{get_query_key}
use kava_proxy_service.CacheMdw.Response.{is_response_cacheable, is_response_final}
use kava_proxy_service.CacheMdw.Cacheable.{HasValidTtls, get_ttl-is_cacheable}
use kava_proxy_service.CacheMdw.ServiceCache.{
  ServiceCache, is_cacheable, get_ttl, wrap_ttl, codec_error, get_cached_query_response,
  cache_query_response,
}

module _ {S : Type 0} (ext : External) (c : ServiceCache S) where
  -- What a successful cache_query_response has found, and the write that it has made.
  pub record Cached (req : Envelope) (body : String) (headers : Dict String) (s : S) : Type 0 where
    pub response : JsonRpcResponse
    pub key : String
    pub json : String
    pub ttl : ℤ
    pub cacheable : is_cacheable ext (some req) ≡ ok true
    pub decoded : ext.unmarshal_response body ≡ some response
    pub response_cacheable : is_response_cacheable ext response ≡ true
    pub final : is_response_final ext response req.method ≡ true
    pub keyed : get_query_key ext c.cache_prefix (some req) ≡ ok key
    pub encoded :
        ext.marshal_query_response
          (record { json_rpc_response_result = response.result; header_map = headers })
        ≡ some json
    pub lives : wrap_ttl (get_ttl c.config req.method) ≡ ok ttl
    pub written :
        (cache_query_response ext c req body headers s).0 ≡ (c.cache_client.set key json ttl s).0

  pub Cached-of_ok :
      (req : Envelope) (body : String) (headers : Dict String) (s : S)
      → (cache_query_response ext c req body headers s).1 ≡ ok tt
      → Cached req body headers s
  unfolding cache_query_response
  Cached-of_ok req body headers s h =
      let (b, e1, h1, s1) = bind-eq-ok (lift (is_cacheable ext (some req))) _ s h in
      let (_, e2, h2, s2) = bind-eq-ok (require b request_not_cacheable) _ s h1 in
      let (response, e3, h3, s3) =
        bind-eq-ok (lift_option codec_error (ext.unmarshal_response body)) _ s h2 in
      let (_, e4, h4, s4) =
        bind-eq-ok (require (is_response_cacheable ext response) response_not_cacheable) _ s h3 in
      let (_, e5, h5, s5) =
        bind-eq-ok (require (is_response_final ext response req.method) response_not_final) _ s
          h4 in
      let (key, e6, h6, s6) =
        bind-eq-ok (lift (get_query_key ext c.cache_prefix (some req))) _ s h5 in
      let (json, e7, h7, s7) =
        bind-eq-ok
          (lift_option codec_error (
            ext.marshal_query_response
              (record { json_rpc_response_result = response.result; header_map = headers })))
          _ s h6 in
      let (ttl, e8, h8, s8) = bind-eq-ok (lift (wrap_ttl (get_ttl c.config req.method))) _ s h7 in
      record {
        response = response;
        key = key;
        json = json;
        ttl = ttl;
        cacheable = e1 ∙ ap ok (check-eq-ok b _ e2);
        decoded = from_option-eq-ok _ _ e3;
        response_cacheable = check-eq-ok _ _ e4;
        final = check-eq-ok _ _ e5;
        keyed = e6;
        encoded = from_option-eq-ok _ _ e7;
        lives = e8;
        written = s1 ∙ (s2 ∙ (s3 ∙ (s4 ∙ (s5 ∙ (s6 ∙ (s7 ∙ s8))))));
      }

  -- The JSON of a cached response is read back, as encoding/json does.
  abbrev pub ReadsBack : Type 0
  ReadsBack =
      (q : QueryResponse) (json : String)
      → ext.marshal_query_response q ≡ some json
      → ext.unmarshal_query_response json ≡ some q

  -- Two requests that differ in their IDs and versions only.
  pub record IsSameQuery (req other : Envelope) : Type 0 where
    pub same_method : other.method ≡ req.method
    pub same_params : other.params ≡ req.params

  is_cacheable_same :
      (req other : Envelope)
      → IsSameQuery req other
      → is_cacheable ext (some other) ≡ is_cacheable ext (some req)
  unfolding is_cacheable
  is_cacheable_same req other q = rw (q.same_method, q.same_params)

  get_query_key_same :
      (req other : Envelope)
      → IsSameQuery req other
      → get_query_key ext c.cache_prefix (some other) ≡ get_query_key ext c.cache_prefix (some req)
  unfolding get_query_key
  get_query_key_same req other q = rw (q.same_method, q.same_params)

  -- What a get that finds an entry answers.
  serves_entry :
      (req : Envelope) (s : S) (key json id text : String) (q : QueryResponse)
      → is_cacheable ext (some req) ≡ ok true
      → get_query_key ext c.cache_prefix (some req) ≡ ok key
      → (c.cache_client.get key s).1 ≡ ok json
      → ext.unmarshal_query_response json ≡ some q
      → ext.marshal_id req.id ≡ some id
      → ext.marshal_response (record {
        version = req.json_rpc_version;
        id = id;
        result = q.json_rpc_response_result;
        json_rpc_error = none;
      })
        ≡ some text
      → (get_cached_query_response ext c req s).1
        ≡ ok (record q { json_rpc_response_result = text +++ "\n" })
  unfolding get_cached_query_response
  serves_entry req s key json id text q e1 e2 e3 e4 e5 e6 = rw (e1, e2, e3, e4, e5, e6)

  -- The entry that was written is found.
  finds_entry :
      (laws : CacheLaws c.cache_client) (valid : HasValidTtls c.config) (req : Envelope)
      (body : String) (headers : Dict String) (s : S) (w : Cached req body headers s)
      → (c.cache_client.get w.key (cache_query_response ext c req body headers s).0).1 ≡ ok w.json
  finds_entry laws valid req body headers s w =
      let (ttl, lives, is_ttl) = get_ttl-is_cacheable ext c.config req valid w.cacheable in
      let same : ttl ≡ w.ttl = (cc (w.lives, lives)) in
      rw w.written
        (rw (laws.get_set w.key w.key w.json w.ttl s (subst IsTtl same is_ttl)) (rw eq_refl))

-- If a response to a request was cached with success, then a request with the same method and
-- params, whatever its ID and version, is answered from the cache: with the result of that response
-- under its own ID and version, a newline behind it, and with the headers that were cached. The
-- response was one that decodes, has no error, is not empty and is final. The hypotheses: the cache
-- obeys the laws of a cache, the times to live are valid, cached JSON is read back, and the answer's
-- ID and text can be encoded.
pub get_cached-cache_query_response :
    {S : Type 0} (ext : External) (c : ServiceCache S) (req other : Envelope) (body : String)
    (headers : Dict String) (s : S) (id text : String)
    → CacheLaws c.cache_client
    → HasValidTtls c.config
    → ReadsBack ext c
    → IsSameQuery ext c req other
    → (cache_query_response ext c req body headers s).1 ≡ ok tt
    → ext.marshal_id other.id ≡ some id
    → (response : JsonRpcResponse) × (ext.unmarshal_response body ≡ some response)
      × (is_response_cacheable ext response ≡ true)
      × (is_response_final ext response req.method ≡ true)
      × (ext.marshal_response (record {
        version = other.json_rpc_version;
        id = id;
        result = response.result;
        json_rpc_error = none;
      })
            ≡ some text
          → (get_cached_query_response ext c other
              (cache_query_response ext c req body headers s).0).1
            ≡ ok (record { json_rpc_response_result = text +++ "\n"; header_map = headers }))
get_cached-cache_query_response ext c req other body headers s id text laws valid reads q h hid =
    let cached = Cached-of_ok ext c req body headers s h in
    (
      cached.response,
      cached.decoded,
      cached.response_cacheable,
      cached.final,
      λ htext.
          serves_entry ext c other _ cached.key cached.json id text _
            (is_cacheable_same ext c req other q ∙ cached.cacheable)
            (get_query_key_same ext c req other q ∙ cached.keyed)
            (finds_entry ext c laws valid req body headers s cached) (reads _ _ cached.encoded) hid
            htext,
    )
