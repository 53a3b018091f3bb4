-- ===== src/Clients/Redis.antt =====
-- clients/cache/redis.go: RedisCache, over the client of the package go-redis. Log lines are left out.
pub mod Laws
pub mod Expiry
use kava_proxy_service.Base.{
  ℕ, String, Option, none, some, Result, ok, err, panic, not_found, failure, ℤ, pos, negsuc, eq_ℤ,
  if◌then◌else◌,
}
use kava_proxy_service.Exec.{Exec, pure, raise, ◌>>=◌}
use kava_proxy_service.Clients.CacheClient.{Cache}

pub record RedisConfig : Type 0 where
  pub address : String
  pub password : String
  pub db : ℕ

-- redis.Client over the state of the server. A get of a key that is not there replies redis.Nil, which
-- is `none`. An expiration of 0 is none.
pub record RedisClient (S : Type 0) : Type 0 where
  pub set : String → String → ℤ → Exec S (Unit {0})
  pub get : String → Exec S (Option String)
  pub del : String → Exec S (Unit {0})
  pub ping : Exec S String

pub record RedisCache (S : Type 0) : Type 0 where
  pub client : RedisClient S

-- redis.NewClient is the parameter `new_client`.
unfoldable pub new_redis_cache :
    {S : Type 0} → (RedisConfig → RedisClient S) → RedisConfig → RedisCache S
new_redis_cache new_client cfg = record { client = new_client cfg }

-- The value of a reply.
abbrev pub found_or_not : {S : Type 0} → Option String → Exec S String
found_or_not none = raise not_found
found_or_not (some value) = pure value

-- An error of the reply to a ping, wrapped by fmt.Errorf.
abbrev pub wrap_ping : Result String → Result (Unit {0})
wrap_ping (ok _) = ok tt
wrap_ping (err _) = err (failure "error connecting to Redis")
wrap_ping panic = panic

module _ {S : Type 0} (rc : RedisCache S) where
  unfoldable pub redis_set : String → String → ℤ → Exec S (Unit {0})
  redis_set key value expiration =
      rc.client.set key value (if eq_ℤ expiration (negsuc 0) then pos 0 else expiration)

  unfoldable pub redis_get : String → Exec S String
  redis_get key = rc.client.get key >>= found_or_not

  unfoldable pub redis_delete : String → Exec S (Unit {0})
  redis_delete key = rc.client.del key

  unfoldable pub redis_healthcheck : Exec S (Unit {0})
  redis_healthcheck s = ((rc.client.ping s).0, wrap_ping (rc.client.ping s).1)

  -- RedisCache as a Cache.
  unfoldable pub redis_cache : Cache S
  redis_cache = record {
    set = redis_set;
    get = redis_get;
    delete = redis_delete;
    healthcheck = redis_healthcheck;
  }
