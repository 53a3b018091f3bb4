-- ===== src/Config/Reading/TimesToLive.antt =====
-- The times to live that the environment can set.
use kava_proxy_service.Base.{
  ℕ, ◌<◌, ◌*◌, ◌^◌, ◌%◌, [], true, ok, ℤ, pos, negsuc, lt_ℤ, ◌≡◌, ◌≢◌, inl, inr, arith,
}
use kava_proxy_service.Config.Environment.{System, seconds, int64_of_remainder}
use kava_proxy_service.Config.Reading.{read_config}
use kava_proxy_service.Config.Validation.{validate}
use kava_proxy_service.Config.Validation.Accepted.{validate_iff}
use kava_proxy_service.Clients.CacheClient.{IsTtl}

int64_of_remainder_ne : (r : ℕ) → r < 2 ^ 64 → r % 2 ≡ 0 → int64_of_remainder r ≢ negsuc 0
int64_of_remainder_ne r small even e = ground arith

-- A whole number of seconds is an even number of nanoseconds, also after it wraps around.
seconds_ne : (n : ℤ) → seconds n ≢ negsuc 0
unfolding seconds
seconds_ne (pos n) = int64_of_remainder_ne (n * 1000000000 % 2 ^ 64) (omega arith) (omega arith)
seconds_ne (negsuc n) = int64_of_remainder_ne _ (omega arith) (omega arith)

positive : (n : ℤ) → IsTtl (seconds n) → lt_ℤ (pos 0) (seconds n) ≡ true
positive n (inl e) = elim (seconds_ne n e) [ ]
positive n (inr h) = h

-- In a configuration that is read from the environment and accepted by Validate, all four times to
-- live are above 0: the -1 nanosecond that means an indefinite time to live cannot be set.
pub ttls_positive :
    (sys : System)
    → let config = read_config sys in
      validate sys config ≡ ok []
      → (lt_ℤ (pos 0) config.cache_method_has_block_number_param_ttl ≡ true)
        × (lt_ℤ (pos 0) config.cache_method_has_block_hash_param_ttl ≡ true)
        × (lt_ℤ (pos 0) config.cache_static_method_ttl ≡ true)
        × (lt_ℤ (pos 0) config.cache_method_has_tx_hash_param_ttl ≡ true)
unfolding read_config
ttls_positive sys e =
    let v = (validate_iff sys (read_config sys)).0 e in
    (
      positive _ v.by_block_number,
      positive _ v.by_block_hash,
      positive _ v.static,
      positive _ v.by_tx_hash,
    )
