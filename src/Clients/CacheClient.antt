-- ===== src/Clients/CacheClient.antt =====
-- clients/cache/cache.go: the interface Cache over a state, and what its clients rely on.
use kava_proxy_service.Base.{
  String, ok, ℤ, pos, negsuc, lt_ℤ, true, ◌≡◌, ◌⊎◌, str_eq, if◌then◌else◌,
}
use kava_proxy_service.Exec.{Exec}

-- A duration is a number of nanoseconds.
pub record Cache (S : Type 0) : Type 0 where
  pub set : String → String → ℤ → Exec S (Unit {0})
  pub get : String → Exec S String
  pub delete : String → Exec S (Unit {0})
  pub healthcheck : Exec S (Unit {0})

-- "Expiration should be either greater than zero or equal to -1, -1 means cache indefinitely."
abbrev pub IsTtl : ℤ → Type 0
IsTtl ttl = (ttl ≡ negsuc 0) ⊎ (lt_ℤ (pos 0) ttl ≡ true)

-- What a client relies on while no time passes.
pub record CacheLaws {S : Type 0} (c : Cache S) : Type 0 where
  pub set_ok : (k v : String) (ttl : ℤ) (s : S) → IsTtl ttl → (c.set k v ttl s).1 ≡ ok tt
  pub get_set :
      (k j v : String) (ttl : ℤ) (s : S)
      → IsTtl ttl
      → (c.get j (c.set k v ttl s).0).1 ≡ (if str_eq k j then ok v else (c.get j s).1)
  pub get_get : (k j : String) (s : S) → (c.get j (c.get k s).0).1 ≡ (c.get j s).1
