-- ===== src/Service/CachedHeaders.antt =====
-- The headers of a response that is served from the cache.
use kava_proxy_service.Base.{
  String, [], ◌∷◌, false, not, ◌&&◌, ◌≡◌, ◌≢◌, refl, sym, ◌∙◌, Dict, if◌then◌else◌, str_eq, arith,
  eq_iff, eq_refl,
}
use kava_proxy_service.Http.{Header, header_get, header_set, get-set, canonical}
use kava_proxy_service.BatchMdw.Processor.{cache_header_key, cache_hit_header_value}
use kava_proxy_service.Service.ProxyRequest.{
  ServingConfig, add_cached_headers, cached_headers, get_access_control_allow_origin_value,
}

header_get_same :
    (h : Header) (k j : String) → canonical j ≡ canonical k → header_get h j ≡ header_get h k
unfolding header_get
header_get_same h k j e = rw e refl

-- A header with a value is not set again.
set_if_empty :
    (h : Header) (k j v : String)
    → header_get h k ≢ ""
    → header_get (if str_eq (header_get h j) "" && not (str_eq v "") then header_set h j v else h) k
      ≡ header_get h k
set_if_empty h k j v ne = ground (
  arith,
  get-set h j k v,
  eq_iff (canonical j) (canonical k),
  eq_iff (header_get h j) "",
  header_get_same h k j,
  ne,
)

add_cached_headers_keeps :
    (headers : Dict String) (h : Header) (k : String)
    → header_get h k ≢ ""
    → header_get (add_cached_headers headers h) k ≡ header_get h k
unfolding add_cached_headers
add_cached_headers_keeps [] h k ne = refl
add_cached_headers_keeps ((name, value) ∷ rest) h k ne =
    let e = set_if_empty h k name value ne in
    add_cached_headers_keeps rest _ k (λ z. ne (sym e ∙ z)) ∙ e

cached_headers_keeps :
    (config : ServingConfig) (host : String) (headers : Dict String) (h : Header) (k : String)
    → let h1 =
        header_set
          (header_set h cache_header_key cache_hit_header_value)
          "Content-Type"
          "application/json" in
      header_get h1 k ≢ "" → header_get (cached_headers config host headers h) k ≡ header_get h1 k
unfolding cached_headers
cached_headers_keeps config host headers h k ne =
    let h1 =
      header_set (header_set h cache_header_key cache_hit_header_value) "Content-Type"
        "application/json" in
    let a = add_cached_headers_keeps headers h1 k ne in
    set_if_empty (add_cached_headers headers h1) k "Access-Control-Allow-Origin"
      (get_access_control_allow_origin_value config host) (λ z. ne (sym a ∙ z))
    ∙ a

other_keys : str_eq (canonical "Content-Type") (canonical cache_header_key) ≡ false
unfolding canonical
other_keys = refl

-- The headers of a response that is served from the cache tell of a hit, and that it is JSON,
-- whatever headers were cached; a header that the writer already had is kept.
pub cached_headers_hit :
    (config : ServingConfig) (host : String) (headers : Dict String) (h : Header)
    → (header_get (cached_headers config host headers h) cache_header_key ≡ cache_hit_header_value)
      × (header_get (cached_headers config host headers h) "Content-Type" ≡ "application/json")
      × ((k : String)
          → canonical k ≢ canonical cache_header_key
          → canonical k ≢ canonical "Content-Type"
          → header_get h k ≢ ""
          → header_get (cached_headers config host headers h) k ≡ header_get h k)
cached_headers_hit config host headers h =
    let h1 = header_set h cache_header_key cache_hit_header_value in
    let hit : header_get (header_set h1 "Content-Type" "application/json") cache_header_key
        ≡ cache_hit_header_value =
      (get-set h1 "Content-Type" cache_header_key "application/json"
        ∙ rw (other_keys, get-set, eq_refl (canonical cache_header_key)) refl) in
    let json : header_get (header_set h1 "Content-Type" "application/json") "Content-Type"
        ≡ "application/json" =
      (rw (get-set, eq_refl (canonical "Content-Type")) refl) in
    (
      cached_headers_keeps config host headers h cache_header_key (λ z. cc (hit, z)) ∙ hit,
      cached_headers_keeps config host headers h "Content-Type" (λ z. cc (json, z)) ∙ json,
      λ k n1 n2 ne.
          let e : header_get (header_set h1 "Content-Type" "application/json") k ≡ header_get h k =
            (ground (
              arith,
              get-set h1 "Content-Type" k "application/json",
              get-set h cache_header_key k cache_hit_header_value,
              eq_iff (canonical "Content-Type") (canonical k),
              eq_iff (canonical cache_header_key) (canonical k),
              n1,
              n2,
            )) in
          cached_headers_keeps config host headers h k (λ z. ne (sym e ∙ z)) ∙ e,
    )
