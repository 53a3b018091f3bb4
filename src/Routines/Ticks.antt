-- ===== src/Routines/Ticks.antt =====
-- routines/metric_compaction.go, routines/metric_partitioning.go, routines/metric_pruning.go: the routines,
-- without their IDs and loggers, and what a tick of their timers does. Intervals are nanoseconds.
use kava_proxy_service.Base.{ℤ}
use kava_proxy_service.Clients.Database.{MetricsDatabase}

pub record MetricPartitioningRoutine (D : Type 0) : Type 0 where
  pub interval : ℤ
  pub delay_first_run : ℤ
  pub prefill_period_days : ℤ
  pub db : MetricsDatabase D

pub record MetricCompactionRoutine (D : Type 0) : Type 0 where
  pub interval : ℤ
  pub db : MetricsDatabase D

pub record MetricPruningRoutine (D : Type 0) : Type 0 where
  pub interval : ℤ
  pub start_delay : ℤ
  pub max_request_metrics_history_days : ℤ
  pub db : MetricsDatabase D

module _ {D : Type 0} where
  unfoldable pub new_metric_partitioning_routine :
      ℤ → ℤ → ℤ → MetricsDatabase D → MetricPartitioningRoutine D
  new_metric_partitioning_routine interval delay_first_run prefill_period_days db = record {
    interval = interval;
    delay_first_run = delay_first_run;
    prefill_period_days = prefill_period_days;
    db = db;
  }

  unfoldable pub new_metric_compaction_routine : ℤ → MetricsDatabase D → MetricCompactionRoutine D
  new_metric_compaction_routine interval db = record { interval = interval; db = db }

  unfoldable pub new_metric_pruning_routine : ℤ → ℤ → ℤ → MetricsDatabase D → MetricPruningRoutine D
  new_metric_pruning_routine interval start_delay days db = record {
    interval = interval;
    start_delay = start_delay;
    max_request_metrics_history_days = days;
    db = db;
  }

  -- A tick of the pruning routine drops the error of the database, and one of the compaction routine
  -- is only logged.
  unfoldable pub pruning_tick : MetricPruningRoutine D → D → D
  pruning_tick mpr d =
      (mpr.db.delete_proxied_request_metrics_older_than_n_days mpr.max_request_metrics_history_days
        d).0

  unfoldable pub compaction_tick : MetricCompactionRoutine D → D → D
  compaction_tick mcr d = d
