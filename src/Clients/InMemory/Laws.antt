-- ===== src/Clients/InMemory/Laws.antt =====
-- InMemoryCache keeps what a client of a Cache relies on, and items expire when they should.
use kava_proxy_service.Base.{
  String, none, ok, err, not_found, ℤ, pos, negsuc, eq_ℤ, lt_ℤ, ◌+ℤ◌, ◌≡◌, refl, inl, inr, false,
  lookup, insert, lookup-insert, lookup-delete, str_eq, eq_iff, eq_refl, if◌then◌else◌, arith, ℕ,
  suc, ltb, leb, ◌<◌,
}
use kava_proxy_service.Clients.CacheClient.{IsTtl, CacheLaws}
use kava_proxy_service.Clients.InMemory.{InMemoryCache, set, is_expired, get, in_memory_cache}

-- The later of two clocks: a number of nanoseconds has passed.
abbrev pub wait : ℤ → InMemoryCache → InMemoryCache
wait passed c = record c { now = c.now +ℤ passed }

module _ (in_a_century : ℤ → ℤ) (later : (t : ℤ) → lt_ℤ (in_a_century t) t ≡ false) where
  fresh :
      (now ttl : ℤ)
      → IsTtl ttl
      → lt_ℤ (if eq_ℤ ttl (negsuc 0) then in_a_century now else now +ℤ ttl) now ≡ false
  unfolding ◌+ℤ◌
  fresh now ttl (inl e) = rw e (later now)
  fresh (pos n) (pos k) (inr h) = ground arith
  fresh (negsuc n) (pos k) (inr h) = ground arith
  fresh now (negsuc k) (inr h) = cc

  get-set :
      (k j v : String) (ttl : ℤ) (c : InMemoryCache)
      → IsTtl ttl
      → (get j (set in_a_century k v ttl c).0).1 ≡ (if str_eq k j then ok v else (get j c).1)
  unfolding get set is_expired
  get-set k j v ttl c h = ground (
    arith,
    fresh c.now ttl h,
    lookup-insert k j
        (record {
          bytes = v;
          expiration = if eq_ℤ ttl (negsuc 0) then in_a_century c.now else c.now +ℤ ttl;
        })
        c.items,
  )

  get-get : (k j : String) (c : InMemoryCache) → (get j (get k c).0).1 ≡ (get j c).1
  unfolding get is_expired
  get-get k j c = ground (arith, eq_iff k j, lookup-delete k j c.items)

  -- InMemoryCache does what a client of a Cache relies on while no time passes: a set with a valid
  -- expiration succeeds, a get of the key that was set last returns its value and a get of another
  -- key what it returned before, and a get does not change what later gets return. The hypothesis
  -- says that a century from now is not in the past.
  pub in_memory_cache-CacheLaws : CacheLaws (in_memory_cache in_a_century)
  unfolding in_memory_cache set
  in_memory_cache-CacheLaws = record {
    set_ok = λ k v ttl s h. refl;
    get_set = get-set;
    get_get = get-get;
  }

lt_shifted : (now : ℤ) (a b : ℕ) → lt_ℤ (now +ℤ pos a) (now +ℤ pos b) ≡ ltb a b
unfolding ◌+ℤ◌
lt_shifted (pos n) a b = ground arith
lt_shifted (negsuc n) a b = ground arith

-- After Set with an expiration of n + 1 nanoseconds and a wait of m nanoseconds, Get returns the
-- value if m is at most n + 1, and otherwise reports that the key is not found and has removed it.
pub expiry_exact :
    (in_a_century : ℤ → ℤ) (k v : String) (n m : ℕ) (c : InMemoryCache)
    → let later = wait (pos m) (set in_a_century k v (pos (suc n)) c).0 in
      ((get k later).1 ≡ (if leb m (suc n) then ok v else err not_found))
      × (suc n < m → lookup k (get k later).0.items ≡ none)
unfolding get set is_expired
expiry_exact in_a_century k v n m c = (
  ground (
    arith,
    eq_refl k,
    lookup-insert k k (record { bytes = v; expiration = c.now +ℤ pos (suc n) }) c.items,
    lt_shifted c.now (suc n) m,
  ),
  λ h. ground (
    arith,
    eq_refl k,
    lookup-insert k k (record { bytes = v; expiration = c.now +ℤ pos (suc n) }) c.items,
    lt_shifted c.now (suc n) m,
    lookup-delete k k (insert k (record { bytes = v; expiration = c.now +ℤ pos (suc n) }) c.items),
  ),
)
