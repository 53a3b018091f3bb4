-- ===== src/Clients/Redis/Laws.antt =====
-- RedisCache keeps what a client of a Cache relies on, if the server of Redis does as it is documented.
use kava_proxy_service.Base.{
  String, Option, none, some, Result, ok, err, panic, not_found, ℤ, pos, negsuc, eq_ℤ, eq_ℤ_iff,
  lt_ℤ, true, false, Bool, ◌≡◌, inl, inr, refl, sym, ap, ◌∙◌, str_eq, if◌then◌else◌, arith,
}
use kava_proxy_service.Exec.{then_run}
use kava_proxy_service.Clients.CacheClient.{IsTtl, CacheLaws}
use kava_proxy_service.Clients.Redis.{
  RedisClient, RedisCache, found_or_not, redis_set, redis_get, redis_cache,
}

-- Commands of a reachable server while no time passes: SET with an expiration that is not negative
-- succeeds, GET replies what was set last, and GET changes nothing that GET replies.
pub record RedisLaws {S : Type 0} (client : RedisClient S) : Type 0 where
  pub set_ok :
      (k v : String) (expiration : ℤ) (s : S)
      → lt_ℤ expiration (pos 0) ≡ false
      → (client.set k v expiration s).1 ≡ ok tt
  pub get_set :
      (k j v : String) (expiration : ℤ) (s : S)
      → lt_ℤ expiration (pos 0) ≡ false
      → (client.get j (client.set k v expiration s).0).1
        ≡ (if str_eq k j then ok (some v) else (client.get j s).1)
  pub get_get : (k j : String) (s : S) → (client.get j (client.get k s).0).1 ≡ (client.get j s).1

-- What Get returns for a reply of the server.
abbrev pub returned : Result (Option String) → Result String
returned (ok none) = err not_found
returned (ok (some v)) = ok v
returned (err e) = err e
returned panic = panic

-- The expiration that Set passes on is not negative.
expiration_sent :
    (ttl : ℤ) → IsTtl ttl → lt_ℤ (if eq_ℤ ttl (negsuc 0) then pos 0 else ttl) (pos 0) ≡ false
expiration_sent (pos n) h = ground arith
expiration_sent (negsuc n) (inl e) = ground (arith, eq_ℤ_iff (negsuc n) (negsuc 0))
expiration_sent (negsuc n) (inr h) = cc

module _ {S : Type 0} (rc : RedisCache S) (laws : RedisLaws rc.client) where
  then_run-found_or_not :
      (s : S) (r : Result (Option String)) → (then_run s r found_or_not).1 ≡ returned r
  then_run-found_or_not s (ok none) = refl
  then_run-found_or_not s (ok (some v)) = refl
  then_run-found_or_not s (err e) = refl
  then_run-found_or_not s panic = refl

  then_run-state : (s : S) (r : Result (Option String)) → (then_run s r found_or_not).0 ≡ s
  then_run-state s (ok none) = refl
  then_run-state s (ok (some v)) = refl
  then_run-state s (err e) = refl
  then_run-state s panic = refl

  pub redis_get-returned :
      (k : String) (s : S) → (redis_get rc k s).1 ≡ returned (rc.client.get k s).1
  unfolding redis_get
  redis_get-returned k s = then_run-found_or_not (rc.client.get k s).0 (rc.client.get k s).1

  redis_get-state : (k : String) (s : S) → (redis_get rc k s).0 ≡ (rc.client.get k s).0
  unfolding redis_get
  redis_get-state k s = then_run-state (rc.client.get k s).0 (rc.client.get k s).1

  returned-if :
      (b : Bool) (v : String) (r : Result (Option String))
      → returned (if b then ok (some v) else r) ≡ (if b then ok v else returned r)
  returned-if true v r = refl
  returned-if false v r = refl

  redis_get-redis_set :
      (k j v : String) (ttl : ℤ) (s : S)
      → IsTtl ttl
      → (redis_get rc j (redis_set rc k v ttl s).0).1
        ≡ (if str_eq k j then ok v else (redis_get rc j s).1)
  unfolding redis_set
  redis_get-redis_set k j v ttl s h =
      redis_get-returned j _
      ∙ ap returned (laws.get_set k j v _ s (expiration_sent ttl h))
      ∙ returned-if (str_eq k j) v (rc.client.get j s).1
      ∙ ap (λ r. if str_eq k j then ok v else r) (sym (redis_get-returned j s))

  redis_get-redis_get :
      (k j : String) (s : S) → (redis_get rc j (redis_get rc k s).0).1 ≡ (redis_get rc j s).1
  redis_get-redis_get k j s =
      ap (λ t. (redis_get rc j t).1) (redis_get-state k s)
      ∙ redis_get-returned j _
      ∙ ap returned (laws.get_get k j s)
      ∙ sym (redis_get-returned j s)

  -- While no time passes, RedisCache does what a client of a Cache relies on, over a server that does as
  -- it is documented.
  pub redis_cache-CacheLaws : CacheLaws (redis_cache rc)
  unfolding redis_cache redis_set
  redis_cache-CacheLaws = record {
    set_ok = λ k v ttl s h. laws.set_ok k v _ s (expiration_sent ttl h);
    get_set = redis_get-redis_set;
    get_get = redis_get-redis_get;
  }
