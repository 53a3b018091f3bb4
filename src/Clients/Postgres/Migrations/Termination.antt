-- ===== src/Clients/Postgres/Migrations/Termination.antt =====
-- The migrations end, and what becomes of their lock.
use kava_proxy_service.Base.{
  ℕ, zero, suc, ◌<◌, ◌-◌, Option, none, some, Error, ◌⊎◌, inl, inr, ◌≡◌, refl, sym, ap, ◌∙◌, arith,
}
use kava_proxy_service.Clients.Postgres.Migrations.{
  Migrator, tried, retry, with_status, after_migrate, locked, after_lock, after_init, migrate_all,
  after_health, migrate_in_background,
}

-- The attempt fails as many times, and then succeeds in the state `after`.
abbrev pub Succeeds : {D : Type 0} → (D → D × Option Error) → ℕ → D → D → Type 0
Succeeds attempt zero d after = attempt d ≡ (after, none)
Succeeds attempt (suc n) d after =
    ((e : Error) × ((attempt d).1 ≡ some e)) × Succeeds attempt n (attempt d).0 after

retry-Succeeds :
    {D : Type 0} (attempt : D → D × Option Error) (fuel n : ℕ) (d after : D)
    → n < fuel
    → Succeeds attempt n d after
    → retry attempt fuel d ≡ some after
unfolding retry
retry-Succeeds attempt zero n d after h s = elim h [ ]
retry-Succeeds attempt (suc fuel) zero d after h s =
    ap (λ r. tried r (retry attempt fuel (attempt d).0)) s
retry-Succeeds attempt (suc fuel) (suc n) d after h ((e, failed), s) =
    ap (λ o. tried ((attempt d).0, o) (retry attempt fuel (attempt d).0)) failed
    ∙ retry-Succeeds attempt fuel n (attempt d).0 after (omega (arith, h)) s

-- The lock of the migrator, as the number of times that it is held: a Lock without an error takes it,
-- an Unlock without an error releases it, and nothing else changes it, in particular no Lock or Unlock
-- with an error.
pub record LockLaws {D M : Type 0} (m : Migrator D M) (held : D → ℕ) : Type 0 where
  pub lock_takes : (d : D) → (m.lock d).1 ≡ none → held (m.lock d).0 ≡ suc (held d)
  pub lock_fails : (d : D) {e : Error} → (m.lock d).1 ≡ some e → held (m.lock d).0 ≡ held d
  pub unlock_releases : (d : D) → (m.unlock d).1 ≡ none → held (m.unlock d).0 ≡ held d - 1
  pub unlock_fails : (d : D) {e : Error} → (m.unlock d).1 ≡ some e → held (m.unlock d).0 ≡ held d
  pub init_keeps : (d : D) → held (m.init d).0 ≡ held d
  pub migrate_keeps : (d : D) → held (m.migrate d).0 ≡ held d
  pub rollback_keeps : (d : D) → held (m.rollback d).0 ≡ held d
  pub status_keeps : (d : D) → held (m.migrations_with_status d).0 ≡ held d

-- How often the lock is held after an Unlock with the error, if it was held once more than `k` before.
abbrev pub left_held : Option Error → ℕ → ℕ
left_held none k = k
left_held (some e) k = suc k

-- The error of the deferred Unlock, after the migrations that are run in the state `taken`.
abbrev pub unlock_error : {D M : Type 0} → Migrator D M → D → Option Error
unlock_error m taken = (m.unlock (after_migrate m (m.migrate taken)).0).1

module _ {D M : Type 0} (m : Migrator D M) (held : D → ℕ) (laws : LockLaws m held) where
  lock_held : (n : ℕ) (d after : D) → Succeeds m.lock n d after → held after ≡ suc (held d)
  lock_held zero d after s =
      let taken : (m.lock d).1 ≡ none = ap (λ r. r.1) s in
      ap held (sym (ap (λ r. r.0) s)) ∙ laws.lock_takes d taken
  lock_held (suc n) d after ((e, failed), s) =
      lock_held n (m.lock d).0 after s ∙ ap suc (laws.lock_fails d failed)

  with_status_held : (r : D × (Error ⊎ M)) → held (with_status m r).0 ≡ held r.0
  with_status_held (d, inr ms) = refl
  with_status_held (d, inl e) = refl

  migrate_held : (r : D × (Error ⊎ ℕ)) → held (after_migrate m r).0 ≡ held r.0
  migrate_held (d, inr group) = with_status_held (m.migrations_with_status d) ∙ laws.status_keeps d
  migrate_held (d, inl e) = laws.rollback_keeps d

  unlock_held :
      (d : D) (k : ℕ) (o : Option Error)
      → (m.unlock d).1 ≡ o
      → held d ≡ suc k
      → held (m.unlock d).0 ≡ left_held o k
  unlock_held d k none e h = omega (arith, laws.unlock_releases d e, h)
  unlock_held d k (some x) e h = laws.unlock_fails d e ∙ h

  locked_held :
      (d : D) (k : ℕ) → held d ≡ suc k → held (locked m d).0 ≡ left_held (unlock_error m d) k
  unfolding locked
  locked_held d k h = unlock_held _ k _ refl (migrate_held (m.migrate d) ∙ laws.migrate_keeps d ∙ h)

  -- If the database answers a health check after some that fail, if Init returns no error, and if the
  -- lock is obtained after some attempts that fail, then the goroutine that runs the migrations ends,
  -- with more fuel than there are failed attempts, whatever the migrations and their rollback return.
  -- If the deferred Unlock returns no error, the lock is then held as often as when the database
  -- answered; if it returns one, once more, as the error is only logged. The hypotheses say that a Lock
  -- and an Unlock without an error take and release the lock, and that nothing else changes it.
  pub migrations_end :
      (health_check : D → D × Option Error) (tries waits health_fuel lock_fuel : ℕ)
      (d online taken : D)
      → tries < health_fuel
      → waits < lock_fuel
      → Succeeds health_check tries d online
      → (m.init online).1 ≡ none
      → Succeeds m.lock waits (m.init online).0 taken
      → migrate_in_background m health_check health_fuel lock_fuel d ≡ some (locked m taken)
        × (held (locked m taken).0 ≡ left_held (unlock_error m taken) (held online))
  unfolding migrate_in_background migrate_all
  migrations_end health_check tries waits health_fuel lock_fuel d online taken h1 h2 reached init_ok
        obtained =
      (
        ap (after_health m lock_fuel)
              (retry-Succeeds health_check health_fuel tries d online h1 reached)
            ∙ ap (λ o. after_init m lock_fuel ((m.init online).0, o)) init_ok
            ∙ ap (after_lock m)
                (retry-Succeeds m.lock lock_fuel waits (m.init online).0 taken h2 obtained),
        locked_held taken (held online)
            (lock_held waits (m.init online).0 taken obtained ∙ ap suc (laws.init_keeps online)),
      )
