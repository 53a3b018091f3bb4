-- ===== src/Witnesses/Migrations.antt =====
-- An example for the migrations: the lock is obtained at the second attempt.
use kava_proxy_service.Base.{
  ℕ, zero, suc, ◌-◌, Option, none, some, Error, failure, inl, inr, ◌≡◌, refl, arith,
}
use kava_proxy_service.Clients.Postgres.Migrations.{Migrator, migrate_in_background, locked}
use kava_proxy_service.Clients.Postgres.Migrations.Termination.{
  LockLaws, left_held, unlock_error, migrations_end,
}

-- The attempts that still fail, and how often the lock is held.
abbrev try_lock : ℕ × ℕ → (ℕ × ℕ) × Option Error
try_lock (zero, held) = ((0, suc held), none)
try_lock (suc left, held) = ((left, held), some (failure "locked"))

-- The migrations fail, and are rolled back; the release of the lock fails if it is held twice.
abbrev try_unlock : ℕ × ℕ → (ℕ × ℕ) × Option Error
try_unlock (left, zero) = ((left, 0), none)
try_unlock (left, suc zero) = ((left, 0), none)
try_unlock (left, suc (suc held)) = ((left, suc (suc held)), some (failure "unlock"))

abbrev sample_migrator : Migrator (ℕ × ℕ) (Unit {0})
sample_migrator = record {
  init = λ d. (d, none);
  lock = try_lock;
  unlock = try_unlock;
  migrate = λ d. (d, inl (failure "migration"));
  rollback = λ d. (d, inr 3);
  migrations_with_status = λ d. (d, inr tt);
  no_migrations = tt;
}

lock_takes : (d : ℕ × ℕ) → (try_lock d).1 ≡ none → (try_lock d).0.1 ≡ suc d.1
lock_takes (zero, held) h = refl
lock_takes (suc left, held) h = cc

lock_fails : (d : ℕ × ℕ) {e : Error} → (try_lock d).1 ≡ some e → (try_lock d).0.1 ≡ d.1
lock_fails (zero, held) h = cc
lock_fails (suc left, held) h = refl

unlock_releases : (d : ℕ × ℕ) → (try_unlock d).1 ≡ none → (try_unlock d).0.1 ≡ d.1 - 1
unlock_releases (left, zero) h = refl
unlock_releases (left, suc zero) h = refl
unlock_releases (left, suc (suc held)) h = cc

unlock_fails : (d : ℕ × ℕ) {e : Error} → (try_unlock d).1 ≡ some e → (try_unlock d).0.1 ≡ d.1
unlock_fails (left, zero) h = cc
unlock_fails (left, suc zero) h = cc
unlock_fails (left, suc (suc held)) h = refl

sample_migrator-LockLaws : LockLaws sample_migrator (λ d. d.1)
sample_migrator-LockLaws = record {
  lock_takes = lock_takes;
  lock_fails = lock_fails;
  unlock_releases = unlock_releases;
  unlock_fails = unlock_fails;
  init_keeps = λ d. refl;
  migrate_keeps = λ d. refl;
  rollback_keeps = λ d. refl;
  status_keeps = λ d. refl;
}

migrations_example :
    migrate_in_background sample_migrator (λ d. (d, none)) 1 5 (1, 0)
      ≡ some (locked sample_migrator (0, 1))
    × ((locked sample_migrator (0, 1)).0.1 ≡ left_held (unlock_error sample_migrator (0, 1)) 0)
migrations_example =
    migrations_end sample_migrator (λ d. d.1) sample_migrator-LockLaws (λ d. (d, none)) 0 1 1 5
      (1, 0) (1, 0) (0, 1) (omega arith) (omega arith) refl refl ((failure "locked", refl), refl)
