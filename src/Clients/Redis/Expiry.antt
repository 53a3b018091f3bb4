-- ===== src/Clients/Redis/Expiry.antt =====
-- Items of RedisCache expire when they should, if the server of Redis does as it is documented.
use kava_proxy_service.Base.{
  ℕ, suc, String, none, some, Bool, true, false, ok, err, not_found, ℤ, pos, negsuc, ◌<◌, ltb, ◌*◌,
  ◌≡◌, ◌≢◌, refl, ap, ◌∙◌, str_eq, inl, inr, if◌then◌else◌, arith,
}
use kava_proxy_service.Clients.CacheClient.{Cache, CacheLaws, IsTtl}
use kava_proxy_service.Clients.Redis.{RedisClient, RedisCache, redis_set, redis_get, redis_cache}
use kava_proxy_service.Clients.Redis.Laws.{
  RedisLaws, returned, redis_get-returned, redis_cache-CacheLaws,
}

-- Nanoseconds of a millisecond.
abbrev pub millisecond : ℕ
millisecond = 1000000

-- A key of a server while milliseconds pass, which is `wait`: with an expiration of 0 it stays, and with
-- a positive expiration it is there before its end and gone after it. What a GET replies at the very
-- millisecond of the end is left open.
pub record RedisExpiry {S : Type 0} (client : RedisClient S) (wait : ℕ → S → S) : Type 0 where
  pub get_persistent :
      (k v : String) (n : ℕ) (s : S)
      → (client.get k (wait n (client.set k v (pos 0) s).0)).1 ≡ ok (some v)
  pub get_before :
      (k v : String) (m n : ℕ) (s : S)
      → n < m
      → (client.get k (wait n (client.set k v (pos (m * millisecond)) s).0)).1 ≡ ok (some v)
  pub get_after :
      (k v : String) (m n : ℕ) (s : S)
      → 0 < m
      → m < n
      → (client.get k (wait n (client.set k v (pos (m * millisecond)) s).0)).1 ≡ ok none

-- How long an item is to be kept: indefinitely, or for one millisecond more than the number.
pub data Lifetime : Type 0 where
  indefinitely : Lifetime
  one_more_than : ℕ → Lifetime

-- The duration that a client of a Cache gives.
abbrev pub duration : Lifetime → ℤ
duration indefinitely = negsuc 0
duration (one_more_than m) = pos (suc m * millisecond)

-- Whether an item is still to be found after as many milliseconds, and that these are not its very end.
abbrev pub lives : Lifetime → ℕ → Bool
lives indefinitely n = true
lives (one_more_than m) n = ltb n (suc m)

abbrev pub IsBesideEnd : Lifetime → ℕ → Type 0
IsBesideEnd indefinitely n = Unit {0}
IsBesideEnd (one_more_than m) n = n ≢ suc m

module _ {S : Type 0} (rc : RedisCache S) (wait : ℕ → S → S) (laws : RedisLaws rc.client)
    (expiry : RedisExpiry rc.client wait) where
  redis_get_later :
      (k v : String) (life : Lifetime) (n : ℕ) (s : S)
      → IsBesideEnd life n
      → (redis_get rc k (wait n (redis_set rc k v (duration life) s).0)).1
        ≡ (if lives life n then ok v else err not_found)
  unfolding redis_set
  redis_get_later k v indefinitely n s h =
      redis_get-returned rc laws k _ ∙ ap returned (expiry.get_persistent k v n s)
  redis_get_later k v (one_more_than m) n s h =
      redis_get-returned rc laws k _ ∙ at_end (ltb n (suc m)) refl
    where
      at_end :
          (b : Bool)
          → ltb n (suc m) ≡ b
          → returned
              (rc.client.get k (wait n (rc.client.set k v (pos (suc m * millisecond)) s).0)).1
            ≡ (if b then ok v else err not_found)
      at_end true e = ap returned (expiry.get_before k v (suc m) n s (ground (arith, e)))
      at_end false e =
          ap returned (expiry.get_after k v (suc m) n s (omega arith) (ground (arith, e, h)))

  duration-IsTtl : (life : Lifetime) → IsTtl (duration life)
  duration-IsTtl indefinitely = inl refl
  duration-IsTtl (one_more_than m) = inr (ground arith)

  -- Over a server that does as it is documented, a Set of RedisCache with a valid duration, which is -1
  -- or a number of whole milliseconds, succeeds; at once, a Get of its key returns the value and a Get
  -- of another key what it returned before; and later a Get of its key returns the value always for
  -- -1, and else exactly until the duration has passed, and then reports that it is not found. What it
  -- returns at the very millisecond of the end is not stated.
  pub redis_cache_expiry :
      (k j v : String) (life : Lifetime) (n : ℕ) (s : S)
      → IsBesideEnd life n
      → let cache : Cache S = redis_cache rc in
        let after = cache.set k v (duration life) s in
        (after.1 ≡ ok tt)
        × ((cache.get j after.0).1 ≡ (if str_eq k j then ok v else (cache.get j s).1))
        × ((cache.get k (wait n after.0)).1 ≡ (if lives life n then ok v else err not_found))
  unfolding redis_cache
  redis_cache_expiry k j v life n s h =
      let client_laws : CacheLaws (redis_cache rc) = redis_cache-CacheLaws rc laws in
      (
        client_laws.set_ok k v (duration life) s (duration-IsTtl life),
        client_laws.get_set k j v (duration life) s (duration-IsTtl life),
        redis_get_later k v life n s h,
      )
