-- ===== src/Clients/Postgres/Migrations.antt =====
-- clients/database/postgres/migrate.go: Client.Migrate, and the goroutine of createDatabaseClient in
-- service/service.go that waits for the database and calls it. The migrator of the package bun is a
-- parameter. A loop that tries again after a second runs on fuel, and gives `none` without fuel.
pub mod Termination
use kava_proxy_service.Base.{
  ℕ, zero, suc, String, Option, none, some, Bool, ◌==◌, Error, failure, ◌⊎◌, inl, inr,
  if◌then◌else◌,
}

-- The ID of the group of migrations that Migrate and Rollback give, and the list of all migrations. An error
-- of these is on the left.
pub record Migrator (D M : Type 0) : Type 0 where
  pub init : D → D × Option Error
  pub lock : D → D × Option Error
  pub unlock : D → D × Option Error
  pub migrate : D → D × (Error ⊎ ℕ)
  pub rollback : D → D × (Error ⊎ ℕ)
  pub migrations_with_status : D → D × (Error ⊎ M)
  pub no_migrations : M

abbrev pub tried : {D : Type 0} → D × Option Error → Option D → Option D
tried (d, none) again = some d
tried (d, some e) again = again

-- `for { err := attempt(); if err != nil { time.Sleep(1 * time.Second); continue }; break }`
unfoldable pub retry : {D : Type 0} → (D → D × Option Error) → ℕ → D → Option D
retry attempt zero d = none
retry attempt (suc fuel) d = tried (attempt d) (retry attempt fuel (attempt d).0)

module _ {D M : Type 0} (m : Migrator D M) where
  -- The migrations and the error that Migrate returns.
  abbrev pub Migrated : Type 0
  Migrated = M × Option Error

  -- After an error of the migrations, the result of the rollback.
  unfoldable pub after_rollback : Error ⊎ ℕ → Option Error
  after_rollback (inr group) =
      if group == 0
      then some (failure "no groups to rollback after migration error")
      else some (failure "rolled back after migration error")
  after_rollback (inl e) = some (failure "error rolling back after original error")

  abbrev pub with_status : D × (Error ⊎ M) → D × Migrated
  with_status (d, inr ms) = (d, (ms, none))
  with_status (d, inl e) = (d, (m.no_migrations, some e))

  abbrev pub after_migrate : D × (Error ⊎ ℕ) → D × Migrated
  after_migrate (d, inr group) = with_status (m.migrations_with_status d)
  after_migrate (d, inl e) = ((m.rollback d).0, (m.no_migrations, after_rollback (m.rollback d).1))

  -- What is done under the lock, which a deferred call releases.
  unfoldable pub locked : D → D × Migrated
  unfolding after_rollback
  locked d = let result = after_migrate (m.migrate d) in ((m.unlock result.0).0, result.1)

  abbrev pub after_lock : Option D → Option (D × Migrated)
  after_lock none = none
  after_lock (some d) = some (locked d)

  abbrev pub after_init : ℕ → D × Option Error → Option (D × Migrated)
  after_init fuel (d, some e) = some (d, (m.no_migrations, some e))
  after_init fuel (d, none) = after_lock (retry m.lock fuel d)

  unfoldable pub migrate_all : ℕ → D → Option (D × Migrated)
  unfolding retry locked
  migrate_all fuel d = after_init fuel (m.init d)

  abbrev pub after_health : ℕ → Option D → Option (D × Migrated)
  after_health fuel none = none
  after_health fuel (some d) = migrate_all fuel d

  -- The goroutine: the health check until it succeeds, and then the migrations.
  unfoldable pub migrate_in_background : (D → D × Option Error) → ℕ → ℕ → D → Option (D × Migrated)
  unfolding migrate_all
  migrate_in_background health_check health_fuel lock_fuel d =
      after_health lock_fuel (retry health_check health_fuel d)
