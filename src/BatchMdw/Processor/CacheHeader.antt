-- ===== src/BatchMdw/Processor/CacheHeader.antt =====
-- The cache header that a batch is answered with, by the hits among its sub-requests.
use kava_proxy_service.Base.{
  ℕ, ◌≤◌, ◌<◌, String, List, [], ◌∷◌, map, some, ◌≡◌, ◌≢◌, sym, subst, ◌∙◌, length, arith, inl, inr,
  All, Any, ◌↔◌, ◌⊎◌, true, eq_iff,
}
use kava_proxy_service.External.{External}
use kava_proxy_service.Http.{Header, header_get}
use kava_proxy_service.BatchMdw.Processor.{
  SubRequest, Action, writer_of, IsInterleaving, request_and_serve, is_cache_hit_headers,
  cache_hit_value, cache_hit_header_value, cache_miss_header_value, cache_partial_header_value,
}
use kava_proxy_service.BatchMdw.Processor.Serving.{Succeeds, hits, batch_of_successes}

-- The handler of the sub-request has said that its answer is from the cache.
abbrev pub IsHit : SubRequest → Type 0
IsHit sub = header_get (writer_of sub).header "X-Kava-Proxy-Cache-Status" ≡ "HIT"

is_cache_hit_headers_iff :
    (h : Header)
    → (is_cache_hit_headers h ≡ true) ↔ (header_get h "X-Kava-Proxy-Cache-Status" ≡ "HIT")
unfolding is_cache_hit_headers
is_cache_hit_headers_iff h = eq_iff (header_get h "X-Kava-Proxy-Cache-Status") "HIT"

hits_bound : (subs : List SubRequest) → hits subs ≤ length subs
hits_bound [] = omega arith
hits_bound (sub ∷ subs) = ground (arith, hits_bound subs)

hits-All : (subs : List SubRequest) → (hits subs ≡ length subs) ↔ All IsHit subs
hits-All [] = ground arith
hits-All (sub ∷ subs) =
    ground (arith, hits-All subs, hits_bound subs, is_cache_hit_headers_iff (writer_of sub).header)

hit_not_miss : cache_hit_header_value ≢ cache_miss_header_value
hit_not_miss e = cc e

hit_not_partial : cache_hit_header_value ≢ cache_partial_header_value
hit_not_partial e = cc e

partial_not_miss : cache_partial_header_value ≢ cache_miss_header_value
partial_not_miss e = cc e

-- The three cases of cache_hit_value.
hit_value_cases :
    (h n : ℕ)
    → (((h ≡ 0) ⊎ (n ≡ 0)) × (cache_hit_value n h ≡ cache_miss_header_value))
      ⊎ ((((h ≢ 0) × (n ≢ 0)) × ((h ≡ n) × (cache_hit_value n h ≡ cache_hit_header_value)))
          ⊎ (((h ≢ 0) × (n ≢ 0)) × ((h ≢ n) × (cache_hit_value n h ≡ cache_partial_header_value))))
unfolding cache_hit_value
hit_value_cases h n = ground arith

hit_value : (h n : ℕ) → cache_hit_value n h ≡ cache_hit_header_value → (h ≡ n) × (0 < n)
hit_value h n v = elim (hit_value_cases h n) [
  | inl (_, e) ↦ absurd (hit_not_miss (sym v ∙ e))
  | inr (inl ((_, ne), (e, _))) ↦ (e, omega arith)
  | inr (inr (_, (_, e))) ↦ absurd (hit_not_partial (sym v ∙ e))
]

hit_value_intro : (h n : ℕ) → h ≡ n → n ≢ 0 → cache_hit_value n h ≡ cache_hit_header_value
unfolding cache_hit_value
hit_value_intro h n e ne = ground (arith, e, ne)

miss_value : (h n : ℕ) → h ≤ n → cache_hit_value n h ≡ cache_miss_header_value → h ≡ 0
miss_value h n le v = elim (hit_value_cases h n) [
  | inl (inl e, _) ↦ e
  | inl (inr e, _) ↦ omega arith
  | inr (inl (_, (_, e))) ↦ absurd (hit_not_miss (sym e ∙ v))
  | inr (inr (_, (_, e))) ↦ absurd (partial_not_miss (sym e ∙ v))
]

miss_value_intro : (h n : ℕ) → h ≡ 0 → cache_hit_value n h ≡ cache_miss_header_value
unfolding cache_hit_value
miss_value_intro h n e = ground (arith, e)

some_value :
    (h n : ℕ)
    → let value = cache_hit_value n h in
      (value ≡ cache_hit_header_value)
      ⊎ ((value ≡ cache_miss_header_value) ⊎ (value ≡ cache_partial_header_value))
unfolding cache_hit_value
some_value h n = ground arith

length_zero : (subs : List SubRequest) → (length subs ≡ 0) ↔ (subs ≡ [])
length_zero [] = ground arith
length_zero (sub ∷ subs) = ground arith

hits_none : (subs : List SubRequest) → (hits subs ≡ 0) ↔ (Any IsHit subs → ⊥)
hits_none [] = ground arith
hits_none (sub ∷ subs) =
    ground (arith, hits_none subs, is_cache_hit_headers_iff (writer_of sub).header)

-- A value of the cache header tells of the hits among the sub-requests.
abbrev pub TellsOf : String → List SubRequest → Type 0
TellsOf value subs =
    ((value ≡ "HIT") ↔ ((subs ≢ []) × All IsHit subs))
    × ((value ≡ "MISS") ↔ (Any IsHit subs → ⊥))
    × ((value ≡ "HIT") ⊎ ((value ≡ "MISS") ⊎ (value ≡ "PARTIAL")))

cache_hit_value_of_batch :
    (subs : List SubRequest) → TellsOf (cache_hit_value (length subs) (hits subs)) subs
cache_hit_value_of_batch subs =
    let e = length_zero subs in
    let a = hits-All subs in
    let n = hits_none subs in
    let b = hits_bound subs in
    (
      (
        λ v. (
          λ s. ground (arith, hit_value (hits subs) (length subs), v, e.1 s),
          a.0 (ground (arith, hit_value (hits subs) (length subs), v)),
        ),
        λ (ne, al). ground (arith, hit_value_intro (hits subs) (length subs), a.1 al, ne, e.0),
      ),
      (
        λ v any. n.0 (miss_value (hits subs) (length subs) b v) any,
        λ f. ground (arith, miss_value_intro (hits subs) (length subs) (n.1 f)),
      ),
      some_value (hits subs) (length subs),
    )

-- If all sub-requests succeed, and their bodies are marshaled, then whatever the interleaving of the
-- goroutines the header X-Kava-Proxy-Cache-Status of the batch's answer is HIT exactly if there are
-- sub-requests and the same header of each is HIT, MISS exactly if that of none is HIT, and PARTIAL
-- otherwise.
pub cache_header_of_batch :
    (ext : External) (subs : List SubRequest) (trace : List (ℕ × Action)) (w : Header)
    (res : String)
    → IsInterleaving subs trace
    → All Succeeds subs
    → ext.marshal_raw_messages (map (λ sub. (writer_of sub).body) subs) ≡ some res
    → let header = (request_and_serve ext subs trace w).0.header in
      TellsOf (header_get header "X-Kava-Proxy-Cache-Status") subs
cache_header_of_batch ext subs trace w res h s m =
    let (_, _, _, served) = batch_of_successes ext subs trace w res h s m in
    subst (λ value. TellsOf value subs) (sym served) (cache_hit_value_of_batch subs)
