-- ===== src/Service/Endpoints/Health.antt =====
-- The answer of /healthcheck.
use kava_proxy_service.Base.{
  String, ◌++◌, Option, none, some, Bool, true, false, not, ◌&&◌, ◌||◌, Error, Result, ok, err,
  panic, ◌≡◌, ◌≢◌, refl, if◌then◌else◌,
}
use kava_proxy_service.Exec.{then_run}
use kava_proxy_service.Http.{ResponseWriter, server_writer}
use kava_proxy_service.Clients.Database.{MetricsDatabase}
use kava_proxy_service.CacheMdw.ServiceCache.{ServiceCache}
use kava_proxy_service.Service.Endpoints.{
  Endpoint, caught, add_message, database_error, cache_error, cache_message, respond,
  create_healthcheck_handler,
}

abbrev pub is_ok {ℓ} : {A : Type ℓ} → Result A → Bool
is_ok (ok _) = true
is_ok (err _) = false
is_ok panic = false

abbrev is_none {ℓ} : {A : Type ℓ} → Option A → Bool
is_none none = true
is_none (some _) = false

module _ {D S : Type 0} (error_text : Error → String) (db : MetricsDatabase D)
    (cache : ServiceCache S) where
  abbrev answer :
      Option Error
      → Option Error
      → Endpoint D S ResponseWriter
      → Endpoint D S ResponseWriter × Result (Unit {0})
  answer db_error error = respond error_text db cache server_writer (
      add_message "proxy service unable to connect to database" db_error
      ++ cache_message error_text db cache server_writer error)

  -- The response after the health check of the cache, of which `s2` is the state.
  after_cache :
      (db_error : Option Error) (r2 : Result (Unit {0})) (enabled : Bool)
      (s1 s2 : Endpoint D S ResponseWriter)
      → r2 ≢ panic
      → s1.writer.status ≡ none
      → s2.writer.status ≡ none
      → let c : Endpoint D S ResponseWriter × Result (Option Error) =
          if enabled then (s2, caught r2) else (s1, ok none) in
        let after = then_run c.0 c.1 (answer db_error) in
        (after.1 ≡ ok tt)
        × (after.0.writer.status
            ≡ some (if is_none db_error && (not enabled || is_ok r2) then 200 else 500))
  unfolding respond
  after_cache none (ok b) true s1 s2 h e1 e2 = (refl, rw e2 refl)
  after_cache none (err b) true s1 s2 h e1 e2 = (refl, rw e2 refl)
  after_cache none panic true s1 s2 h e1 e2 = absurd (h refl)
  after_cache none r2 false s1 s2 h e1 e2 = (refl, rw e1 refl)
  after_cache (some a) (ok b) true s1 s2 h e1 e2 = (refl, rw e2 refl)
  after_cache (some a) (err b) true s1 s2 h e1 e2 = (refl, rw e2 refl)
  after_cache (some a) panic true s1 s2 h e1 e2 = absurd (h refl)
  after_cache (some a) r2 false s1 s2 h e1 e2 = (refl, rw e1 refl)

  -- The response after the health check of the database, of which `r1` is the result.
  after_database :
      (r1 : Result (Unit {0})) (s : Endpoint D S ResponseWriter)
      → r1 ≢ panic
      → (cache.cache_client.healthcheck s.store).1 ≢ panic
      → s.writer.status ≡ none
      → let after = then_run s (caught r1) (λ db_error s'.
        then_run
          (cache_error error_text db cache server_writer s').0
          (cache_error error_text db cache server_writer s').1
          (answer db_error)) in
        (after.1 ≡ ok tt)
        × (after.0.writer.status
            ≡ some (
                if is_ok r1
                  && (not cache.cache_enabled || is_ok (cache.cache_client.healthcheck s.store).1)
                then 200
                else 500))
  unfolding cache_error
  after_database (ok a) s h1 h2 e =
      after_cache none (cache.cache_client.healthcheck s.store).1 cache.cache_enabled s
        (record s { store = (cache.cache_client.healthcheck s.store).0 }) h2 e e
  after_database (err a) s h1 h2 e =
      after_cache (some a) (cache.cache_client.healthcheck s.store).1 cache.cache_enabled s
        (record s { store = (cache.cache_client.healthcheck s.store).0 }) h2 e e
  after_database panic s h1 h2 e = absurd (h1 refl)

  -- On a fresh response, and if no health check panics, the health check handler answers 200 exactly if
  -- the database is healthy and the cache is disabled or healthy, and else 500.
  pub health_status :
      (s : Endpoint D S ResponseWriter)
      → (db.health_check s.database).1 ≢ panic
      → (cache.cache_client.healthcheck s.store).1 ≢ panic
      → s.writer.status ≡ none
      → let after = create_healthcheck_handler error_text db cache server_writer s in
        let healthy =
          is_ok (db.health_check s.database).1
          && (not cache.cache_enabled || is_ok (cache.cache_client.healthcheck s.store).1) in
        (after.1 ≡ ok tt) × (after.0.writer.status ≡ some (if healthy then 200 else 500))
  unfolding create_healthcheck_handler database_error
  health_status s h1 h2 e =
      after_database (db.health_check s.database).1
        (record s { database = (db.health_check s.database).0 }) h1 h2 e
