-- ===== src/Witnesses/Redis.antt =====
-- An example for the expiry of RedisCache, over a server with a clock.
use kava_proxy_service.Base.{
  ℕ, zero, suc, ◌+◌, ◌*◌, ◌<◌, ltb, String, [], Option, none, some, Bool, true, false, ok, ℤ, pos,
  negsuc, Dict, lookup, insert, lookup-insert, ◌≡◌, refl, ap, ◌∙◌, str_eq, eq_refl, arith,
  if◌then◌else◌,
}
use kava_proxy_service.Clients.CacheClient.{Cache}
use kava_proxy_service.Clients.Redis.{RedisCache, redis_cache}
use kava_proxy_service.Clients.Redis.Laws.{RedisLaws}
use kava_proxy_service.Clients.Redis.Expiry.{
  millisecond, RedisExpiry, indefinitely, redis_cache_expiry,
}

-- The entries of a server with a clock: the value, and its end if it has one, in nanoseconds.
abbrev Entry : Type 0
Entry = String × Option ℕ

abbrev deadline : ℕ → ℤ → Option ℕ
deadline now (pos zero) = none
deadline now (pos (suc d)) = some (now + suc d)
deadline now (negsuc d) = none

abbrev read_entry : ℕ → Option Entry → Option String
read_entry now none = none
read_entry now (some (v, none)) = some v
read_entry now (some (v, some end)) = if ltb now end then some v else none

-- A server that expires its keys: its clock, and its entries.
abbrev timed_redis : RedisCache (ℕ × Dict Entry)
timed_redis = record {
  client = record {
    set = λ k v expiration (now, es). ((now, insert k (v, deadline now expiration) es), ok tt);
    get = λ k (now, es). ((now, es), ok (read_entry now (lookup k es)));
    del = λ k s. (s, ok tt);
    ping = λ s. (s, ok "PONG");
  };
}

abbrev wait : ℕ → ℕ × Dict Entry → ℕ × Dict Entry
wait n (now, es) = (now + n * millisecond, es)

read_fresh :
    (now : ℕ) (v : String) (expiration : ℤ) (b : Bool) (o : Option Entry)
    → ok (read_entry now (if b then some (v, deadline now expiration) else o))
      ≡ (if b then ok (some v) else ok (read_entry now o))
read_fresh now v (pos zero) true o = refl
read_fresh now v (pos (suc d)) true o = ground arith
read_fresh now v (negsuc d) true o = refl
read_fresh now v expiration false o = refl

timed_redis-RedisLaws : RedisLaws timed_redis.client
timed_redis-RedisLaws = record {
  set_ok = λ k v e s h. refl;
  get_set = λ k j v e (now, es) h.
      ap (λ o. ok (read_entry now o)) (lookup-insert k j (v, deadline now e) es)
      ∙ read_fresh now v e (str_eq k j) (lookup j es);
  get_get = λ k j s. refl;
}

set_entry : (k : String) (x : Entry) (es : Dict Entry) → lookup k (insert k x es) ≡ some x
set_entry k x es = lookup-insert k k x es ∙ ap (λ b. if b then some x else lookup k es) (eq_refl k)

read_timed :
    (now m n : ℕ) (v : String) (b : Bool)
    → 0 < m
    → ltb n m ≡ b
    → read_entry (now + n * millisecond) (some (v, deadline now (pos (m * millisecond))))
      ≡ (if b then some v else none)
read_timed now zero n v b h e = elim h [ ]
read_timed now (suc m) n v true h e = ground (arith, e)
read_timed now (suc m) n v false h e = ground (arith, e)

timed_redis-RedisExpiry : RedisExpiry timed_redis.client wait
timed_redis-RedisExpiry = record {
  get_persistent = λ k v n (now, es).
      ap (λ o. ok (read_entry (now + n * millisecond) o)) (set_entry k (v, none) es);
  get_before = λ k v m n (now, es) h.
      ap (λ o. ok (read_entry (now + n * millisecond) o)) (set_entry k _ es)
      ∙ ap ok (read_timed now m n v true (omega (arith, h)) (ground (arith, h)));
  get_after = λ k v m n (now, es) h later.
      ap (λ o. ok (read_entry (now + n * millisecond) o)) (set_entry k _ es)
      ∙ ap ok (read_timed now m n v false h (ground (arith, later)));
}

-- Over the server that expires its keys, also after a million days.
redis_expiry_example :
    let cache : Cache (ℕ × Dict Entry) = redis_cache timed_redis in
    let after = cache.set "a" "1" (negsuc 0) (7, []) in
    (after.1 ≡ ok tt)
    × ((cache.get "b" after.0).1 ≡ (if str_eq "a" "b" then ok "1" else (cache.get "b" (7, [])).1))
    × ((cache.get "a" (wait 86400000000000 after.0)).1 ≡ ok "1")
redis_expiry_example =
    redis_cache_expiry timed_redis wait timed_redis-RedisLaws timed_redis-RedisExpiry "a" "b" "1"
      indefinitely 86400000000000 (7, []) tt
