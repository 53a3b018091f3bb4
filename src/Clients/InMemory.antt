-- ===== src/Clients/InMemory.antt =====
-- clients/cache/inmemory.go: InMemoryCache. The clock is part of the state that its methods run on;
-- `in_a_century` is time.Time's AddDate(100, 0, 0). The mutex makes each method one step.
pub mod Laws
use kava_proxy_service.Base.{
  String, List, [], ◌∷◌, Option, none, some, ok, err, not_found, Bool, ℤ, negsuc, eq_ℤ, lt_ℤ, ◌+ℤ◌,
  Dict, lookup, insert, delete, if◌then◌else◌,
}
use kava_proxy_service.Exec.{Exec}
use kava_proxy_service.Clients.CacheClient.{Cache}

pub record CacheItem : Type 0 where
  pub bytes : String
  pub expiration : ℤ

-- The map, and what time.Now() returns.
pub record InMemoryCache : Type 0 where
  pub items : Dict CacheItem
  pub now : ℤ

unfoldable pub new_in_memory_cache : ℤ → InMemoryCache
new_in_memory_cache now = record { items = []; now = now }

module _ (in_a_century : ℤ → ℤ) where
  unfoldable pub set : String → String → ℤ → Exec InMemoryCache (Unit {0})
  set key bytes expiration c =
      let expiry = if eq_ℤ expiration (negsuc 0) then in_a_century c.now else c.now +ℤ expiration in
      (
        record c { items = insert key (record { bytes = bytes; expiration = expiry }) c.items },
        ok tt,
      )

-- time.Now().After(item.expiration)
unfoldable pub is_expired : ℤ → CacheItem → Bool
is_expired now item = lt_ℤ item.expiration now

unfoldable pub get : String → Exec InMemoryCache String
unfolding is_expired
get key c = elim (lookup key c.items) [
  | none ↦ (record c { items = delete key c.items }, err not_found)
  | some item ↦
      if is_expired c.now item
      then (record c { items = delete key c.items }, err not_found)
      else (c, ok item.bytes)
]

-- The loop of GetAll: the result, and the map without what has expired.
unfoldable pub get_all_from : ℤ → Dict CacheItem → Dict String × Dict CacheItem
unfolding is_expired
get_all_from now [] = ([], [])
get_all_from now ((key, item) ∷ rest) =
    let (result, kept) = get_all_from now rest in
    if is_expired now item then (result, kept) else ((key, item.bytes) ∷ result, (key, item) ∷ kept)

unfoldable pub get_all : InMemoryCache → InMemoryCache × Dict String
get_all c = let (result, kept) = get_all_from c.now c.items in (record c { items = kept }, result)

unfoldable pub remove : String → Exec InMemoryCache (Unit {0})
remove key c = (record c { items = delete key c.items }, ok tt)

unfoldable pub healthcheck : Exec InMemoryCache (Unit {0})
healthcheck c = (c, ok tt)

-- InMemoryCache as a Cache.
unfoldable pub in_memory_cache : (ℤ → ℤ) → Cache InMemoryCache
in_memory_cache in_a_century = record {
  set = set in_a_century;
  get = get;
  delete = remove;
  healthcheck = healthcheck;
}
