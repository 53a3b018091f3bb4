-- ===== src/Entry/Started.antt =====
-- When the program starts, and that its partitioning routine does not block.
use kava_proxy_service.Base.{
  String, [], ◌∷◌, Result, ok, err, panic, lookup, Any, ◌≡◌, ◌↔◌, inl, inr, refl, ap, ◌∙◌,
}
use kava_proxy_service.Config.Environment.{System}
use kava_proxy_service.Config.HostMaps.{Errors}
use kava_proxy_service.Config.Reading.{Config, read_config}
use kava_proxy_service.Config.Validation.{validate, valid_log_levels}
use kava_proxy_service.Config.Validation.Accepted.{IsValid, validate_iff}
use kava_proxy_service.Entry.{
  Level, debug_level, info_level, error_level, trace_level, new_logger, with_logger, after_validate,
  initialize,
}

new_logger_known :
    (log_level : String)
    → Any (λ l. log_level ≡ l) valid_log_levels
    → (level : Level) × (new_logger log_level ≡ ok level)
unfolding new_logger lookup
new_logger_known l (inl e) = (trace_level, rw e refl)
new_logger_known l (inr (inl e)) = (debug_level, rw e refl)
new_logger_known l (inr (inr (inl e))) = (info_level, rw e refl)
new_logger_known l (inr (inr (inr (inl e)))) = (error_level, rw e refl)
new_logger_known l (inr (inr (inr (inr e)))) = elim e [ ]

after_validate-ok :
    (config : Config) (r : Result Errors) (p : Config × Level)
    → after_validate config r ≡ ok p
    → r ≡ ok []
unfolding after_validate
after_validate-ok config (ok []) p h = refl
after_validate-ok config (ok (e ∷ errors)) p h = cc
after_validate-ok config (err e) p h = cc
after_validate-ok config panic p h = cc

-- The program starts with a logger, and does not panic, exactly if the configuration that is read from
-- the environment is valid: logging.New knows every level that Validate accepts.
pub initialize_iff :
    (sys : System)
    → ((level : Level) × (initialize sys ≡ ok (read_config sys, level)))
      ↔ IsValid sys (read_config sys)
unfolding initialize after_validate
initialize_iff sys = (
  (λ (level, e).
      (validate_iff sys (read_config sys)).0
        (after_validate-ok (read_config sys) (validate sys (read_config sys)) _ e)),
  (λ v.
      let (level, known) = new_logger_known (read_config sys).log_level v.level in
      (
        level,
        ap (after_validate (read_config sys)) ((validate_iff sys (read_config sys)).1 v)
            ∙ ap (with_logger (read_config sys)) known,
      )),
)
