-- ===== src/Clients/Postgres/Periods.antt =====
-- clients/database/postgres/partition.go: PartitionPeriod and PartitionsForPeriod, in UTC. Numbers are
-- printed by a parameter.
use kava_proxy_service.Base.{
  ℕ, zero, suc, ◌+◌, ◌-◌, ◌*◌, String, ◌+++◌, List, [], ◌∷◌, ◌++◌, ltb, Result, ok, err, failure, ℤ,
  pos, lt_ℤ, pos_part, if◌then◌else◌,
}
use kava_proxy_service.Config.Validation.{max_metric_partitioning_prefill_period_days}
use kava_proxy_service.Clients.Postgres.Dates.{Date, date_of, day_length, truncate, days_in_month}
pub mod Loop
pub mod Days
pub mod Gap

-- Times are nanoseconds.
pub record PartitionPeriod : Type 0 where
  pub table_name : String
  pub inclusive_start_period : ℕ
  pub exclusive_end_period : ℕ

abbrev pub partition_base_table_name : String
partition_base_table_name = "proxied_request_metrics"

abbrev pub min : ℕ → ℕ → ℕ
min a b = if ltb b a then b else a

-- The loop over the partitions: `count` of them from the index `i`, of which each starts a day after
-- the one before it.
unfoldable pub partition_loop : (ℕ → String) → ℕ → ℕ → ℕ → List PartitionPeriod
partition_loop name start i zero = []
partition_loop name start i (suc count) =
    record {
      table_name = name i;
      inclusive_start_period = truncate (start + i * day_length);
      exclusive_end_period = truncate (start + (i + 1) * day_length);
    }
    ∷ partition_loop name start (i + 1) count

module _ (print_number : ℕ → String) where
  -- fmt.Sprintf of the base name, and of the year, the month and the day behind their labels.
  abbrev pub partition_name : String → String → String → ℕ → ℕ → ℕ → String
  partition_name before_year before_month before_day year month day =
      partition_base_table_name
      +++ (before_year
          +++ (print_number year
              +++ (before_month +++ (print_number month +++ (before_day +++ print_number day)))))

  -- The names of the partitions of the current month, and of the next month.
  abbrev pub current_name : Date → ℕ → String
  current_name date i =
      partition_name "_year_" "_month_" "_day_" date.year date.month (date.day + i)

  abbrev pub future_name : Date → ℕ → String
  future_name date i = partition_name "_year" "_month" "_day" date.year date.month (date.day + i)

  -- The partitions of the next month, from its second day.
  unfoldable pub future_partitions : ℕ → ℕ → ℕ → List PartitionPeriod
  unfolding partition_loop
  future_partitions start remaining total =
      let future_month = start + day_length * (remaining + 1) in
      if ltb remaining total
      then partition_loop (future_name (date_of future_month)) future_month 0 (total - remaining)
      else []

  -- numDaysToPrefill partitions from the day of `start`.
  unfoldable pub partitions_for_period : ℕ → ℤ → Result (List PartitionPeriod)
  unfolding partition_loop future_partitions days_in_month
  partitions_for_period start days =
      let date = date_of start in
      let remaining = days_in_month start + 1 - date.day in
      if lt_ℤ (pos max_metric_partitioning_prefill_period_days) days
      then err (failure "more than 28 prefill days specified")
      else ok (
          partition_loop (current_name date) start 0 (min remaining (pos_part days))
          ++ future_partitions start remaining (pos_part days))
