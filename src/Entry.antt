-- ===== src/Entry.antt =====
-- main.go and logging/logging.go: init, logging.New, and the routines that main starts. The constructors
-- of the routines return no error, and logging is left out.
pub mod Started
use kava_proxy_service.Base.{
  String, List, [], ◌∷◌, Option, none, some, Bool, Dict, lookup, Result, ok, err, panic, failure,
  if◌then◌else◌, ◌+++◌,
}
use kava_proxy_service.Config.Environment.{System}
use kava_proxy_service.Config.HostMaps.{Errors}
use kava_proxy_service.Config.Reading.{Config, read_config}
use kava_proxy_service.Config.Validation.{validate}
use kava_proxy_service.Clients.Database.{MetricsDatabase}
use kava_proxy_service.Routines.Ticks.{
  MetricPartitioningRoutine, MetricCompactionRoutine, MetricPruningRoutine,
  new_metric_partitioning_routine, new_metric_compaction_routine, new_metric_pruning_routine,
}

-- The levels of zerolog that are used.
pub data Level : Type 0 where
  debug_level info_level error_level trace_level : Level

abbrev pub service_log_level_to_zero_log_level : Dict Level
service_log_level_to_zero_log_level =
    ("DEBUG", debug_level)
    ∷ ("INFO", info_level)
    ∷ ("ERROR", error_level)
    ∷ ("TRACE", trace_level)
    ∷ []

-- logging.New: the logger is its level.
unfoldable pub new_logger : String → Result Level
new_logger log_level = elim (lookup log_level service_log_level_to_zero_log_level) [
  | none ↦ err (failure ("invalid zero log level provided " +++ log_level))
  | some level ↦ ok level
]

-- `if err != nil { panic(err) }` after logging.New
abbrev pub with_logger : Config → Result Level → Result (Config × Level)
with_logger config (ok level) = ok (config, level)
with_logger config (err _) = panic
with_logger config panic = panic

-- `if err != nil { panic(err) }` after Validate
unfoldable pub after_validate : Config → Result Errors → Result (Config × Level)
unfolding new_logger
after_validate config (ok []) = with_logger config (new_logger config.log_level)
after_validate config (ok (e ∷ errors)) = panic
after_validate config (err _) = panic
after_validate config panic = panic

-- init: serviceConfig and serviceLogger.
unfoldable pub initialize : System → Result (Config × Level)
unfolding after_validate
initialize sys = let config = read_config sys in after_validate config (validate sys config)

module _ {D : Type 0} (config : Config) (database : MetricsDatabase D) where
  unfoldable pub start_metric_partitioning_routine : MetricPartitioningRoutine D
  unfolding new_metric_partitioning_routine
  start_metric_partitioning_routine =
      new_metric_partitioning_routine config.metric_partitioning_routine_interval
        config.metric_partitioning_routine_delay_first_run
        config.metric_partitioning_prefill_period_days database

  unfoldable pub start_metric_compaction_routine : MetricCompactionRoutine D
  unfolding new_metric_compaction_routine
  start_metric_compaction_routine =
      new_metric_compaction_routine config.metric_compaction_routine_interval database

  -- The start delay is that of the partitioning routine, as in the code.
  unfoldable pub start_metric_pruning_routine : Option (MetricPruningRoutine D)
  unfolding new_metric_pruning_routine
  start_metric_pruning_routine =
      if config.metric_pruning_enabled
      then some (
          new_metric_pruning_routine config.metric_pruning_routine_interval
            config.metric_partitioning_routine_delay_first_run
            config.metric_pruning_max_request_metrics_history_days database)
      else none

-- The routines that main starts, each in a goroutine.
pub record StartedRoutines (D : Type 0) : Type 0 where
  pub partitioning : MetricPartitioningRoutine D
  pub compaction : MetricCompactionRoutine D
  pub pruning : Option (MetricPruningRoutine D)

unfoldable pub start_routines :
    {D : Type 0} → Config → MetricsDatabase D → Option (StartedRoutines D)
unfolding start_metric_partitioning_routine start_metric_compaction_routine
    start_metric_pruning_routine
start_routines config database =
    if config.metric_database_enabled
    then some (record {
      partitioning = start_metric_partitioning_routine config database;
      compaction = start_metric_compaction_routine config database;
      pruning = start_metric_pruning_routine config database;
    })
    else none
