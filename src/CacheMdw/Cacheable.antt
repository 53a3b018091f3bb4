-- ===== src/CacheMdw/Cacheable.antt =====
-- Which requests are cacheable, and that each of them has a time to live.
use kava_proxy_service.Base.{
  String, some, Bool, true, false, ◌≡◌, ◌↔◌, ◌⊎◌, refl, inl, inr, Result, ok, err, panic, ℤ, pos,
  lt_ℤ, str_eq, eq_iff, eq_ℤ_iff, arith, contains, ◌||◌, if◌then◌else◌, request_not_cacheable,
  Bool-cases,
}
use kava_proxy_service.External.{External, Envelope}
use kava_proxy_service.Decode.Methods.{
  method_has_block_number_param, method_has_block_hash_param, is_method_static,
  method_has_tx_hash_param, earliest_number,
}
use kava_proxy_service.Decode.BlockNumber.{parse_block_number_from_params}
use kava_proxy_service.Decode.Groups.{groups_disjoint}
use kava_proxy_service.Clients.CacheClient.{IsTtl}
use kava_proxy_service.CacheMdw.ServiceCache.{
  CacheConfig, is_number_cacheable, is_cacheable, get_ttl,
}

-- The four times to live are valid, which config.Validate checks.
pub record HasValidTtls (config : CacheConfig) : Type 0 where
  pub by_block_number : IsTtl config.cache_method_has_block_number_param_ttl
  pub by_block_hash : IsTtl config.cache_method_has_block_hash_param_ttl
  pub static : IsTtl config.cache_static_method_ttl
  pub by_tx_hash : IsTtl config.cache_method_has_tx_hash_param_ttl

-- The block number of the request is parsed to a number above 0 or to the tag earliest.
abbrev pub HasCacheableNumber : External → Envelope → Type 0
HasCacheableNumber ext req =
    (n : ℤ) × (parse_block_number_from_params ext req.method req.params ≡ ok n)
    × ((lt_ℤ (pos 0) n ≡ true) ⊎ (n ≡ earliest_number))

-- The four tests of GetTTL, of which one holds.
IsTtl-found :
    (a b c d : Bool) (config : CacheConfig)
    → HasValidTtls config
    → (a || (b || (c || d))) ≡ true
    → (ttl : ℤ) × ((if a
          then ok config.cache_method_has_block_number_param_ttl
          else if b
          then ok config.cache_method_has_block_hash_param_ttl
          else if c
          then ok config.cache_static_method_ttl
          else if d
          then ok config.cache_method_has_tx_hash_param_ttl
          else err request_not_cacheable)
        ≡ ok ttl)
      × IsTtl ttl
IsTtl-found true b c d config v h =
    (config.cache_method_has_block_number_param_ttl, refl, v.by_block_number)
IsTtl-found false true c d config v h =
    (config.cache_method_has_block_hash_param_ttl, refl, v.by_block_hash)
IsTtl-found false false true d config v h = (config.cache_static_method_ttl, refl, v.static)
IsTtl-found false false false true config v h =
    (config.cache_method_has_tx_hash_param_ttl, refl, v.by_tx_hash)
IsTtl-found false false false false config v h = cc

-- A cacheable request has a time to live, which is valid if the configuration is: caching never
-- fails for want of one.
pub get_ttl-is_cacheable :
    (ext : External) (config : CacheConfig) (req : Envelope)
    → HasValidTtls config
    → is_cacheable ext (some req) ≡ ok true
    → (ttl : ℤ) × (get_ttl config req.method ≡ ok ttl) × IsTtl ttl
unfolding is_cacheable get_ttl
get_ttl-is_cacheable ext config req v h =
    IsTtl-found (method_has_block_number_param req.method) (method_has_block_hash_param req.method)
      (is_method_static req.method) (method_has_tx_hash_param req.method) config v (ground arith)

number_ok :
    (n m : ℤ)
    → ok n ≡ ok m
    → ((lt_ℤ (pos 0) m ≡ true) ⊎ (m ≡ earliest_number))
    → is_number_cacheable (ok n) ≡ ok true
unfolding is_number_cacheable
number_ok n m e h = ground (arith, eq_ℤ_iff n earliest_number)

number_cacheable_iff :
    (r : Result ℤ)
    → (is_number_cacheable r ≡ ok true)
      ↔ ((n : ℤ) × (r ≡ ok n) × ((lt_ℤ (pos 0) n ≡ true) ⊎ (n ≡ earliest_number)))
unfolding is_number_cacheable
number_cacheable_iff (ok n) =
    (λ h. (n, refl, ground (arith, eq_ℤ_iff n earliest_number)), λ h. number_ok n h.0 h.1 h.2)
number_cacheable_iff (err e) = (λ h. cc, λ h. cc)
number_cacheable_iff panic = (λ h. cc, λ h. cc)

no_empty_method :
    (s : String)
    → str_eq s "" ≡ true
    → (method_has_block_number_param s ≡ false)
      × (method_has_block_hash_param s ≡ false)
      × (is_method_static s ≡ false)
      × (method_has_tx_hash_param s ≡ false)
unfolding method_has_block_number_param method_has_block_hash_param is_method_static
    method_has_tx_hash_param contains
no_empty_method s h = let e = (eq_iff s "").0 h in rw e (refl, refl, refl, refl)

-- A request is cacheable exactly if its method has a block number parameter, which is parsed to a
-- number above 0 or to the tag earliest, or has a block hash parameter, or is static, or has a
-- transaction hash parameter.
pub is_cacheable_iff :
    (ext : External) (req : Envelope)
    → (is_cacheable ext (some req) ≡ ok true) ↔ (
        ((method_has_block_number_param req.method ≡ true) × HasCacheableNumber ext req)
        ⊎ ((method_has_block_hash_param req.method ≡ true)
            ⊎ ((is_method_static req.method ≡ true)
                ⊎ (method_has_tx_hash_param req.method ≡ true))))
unfolding is_cacheable
is_cacheable_iff ext req = (
  λ h. elim (Bool-cases (method_has_block_number_param req.method)) [
    | inl t ↦ inl (t, (number_cacheable_iff _).0 (ground arith))
    | inr t ↦ inr (ground arith)
  ],
  elim [
    | inl (t, n) ↦ ground (
      arith,
      no_empty_method req.method,
      (number_cacheable_iff (parse_block_number_from_params ext req.method req.params)).1 n,
    )
    | inr g ↦ ground (arith, no_empty_method req.method, groups_disjoint req.method)
  ],
)
