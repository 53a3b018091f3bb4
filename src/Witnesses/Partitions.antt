-- ===== src/Witnesses/Partitions.antt =====
-- Examples for Redis and for the partitions of the database.
use kava_proxy_service.Base.{
  ℕ, suc, ◌+◌, ◌-◌, ◌*◌, String, List, [], ◌∷◌, length, get_elem?, Option, none, some, Bool, true,
  false, ok, pos, Dict, lookup, insert, lookup-insert, ◌≡◌, refl, str_eq, if◌then◌else◌, arith,
}
use kava_proxy_service.Clients.Redis.{RedisCache}
use kava_proxy_service.Clients.Redis.Laws.{RedisLaws}
use kava_proxy_service.Clients.Postgres.Dates.{
  day_length, date_of_day, next_date, days_in, days_in_month,
}
use kava_proxy_service.Clients.Postgres.Periods.{
  PartitionPeriod, partitions_for_period, partition_loop, future_partitions,
}
use kava_proxy_service.Clients.Postgres.Periods.Days.{period_at, partition_days}
use kava_proxy_service.Clients.Postgres.Periods.Loop.{day_period, remaining_days}
use kava_proxy_service.Clients.Postgres.Periods.Gap.{IsWithin, first_day_missing}
use kava_proxy_service.Clients.Postgres.Partitions.{Sql, partition}
use kava_proxy_service.Clients.Postgres.Partitions.Transactions.{TxLaws, transactions_ended}

-- A server that never expires a key.
abbrev pub sample_redis : RedisCache (Dict String)
sample_redis = record {
  client = record {
    set = λ k v expiration s. (insert k v s, ok tt);
    get = λ k s. (s, ok (lookup k s));
    del = λ k s. (s, ok tt);
    ping = λ s. (s, ok "PONG");
  };
}

choose :
    (b : Bool) (v : String) (o : Option String)
    → ok (if b then some v else o) ≡ (if b then ok (some v) else ok o)
choose true v o = refl
choose false v o = refl

pub sample_redis-RedisLaws : RedisLaws sample_redis.client
sample_redis-RedisLaws = record {
  set_ok = λ k v e s h. refl;
  get_set = λ k j v e s h. rw (lookup-insert k j v s) (choose (str_eq k j) v (lookup j s));
  get_get = λ k j s. refl;
}

abbrev pub print : ℕ → String
print n = "0"

-- Noon of January 29 of year 1: three days remain in the month.
abbrev noon : ℕ
noon = 28 * day_length + 43200000000000

days_example :
    (ps : List PartitionPeriod) × (partitions_for_period print noon (pos 5) ≡ ok ps)
    × (length ps ≡ 5)
    × (get_elem? ps 3 ≡ some (period_at print noon 3))
days_example = partition_days print noon 5 3 (omega arith) (omega arith)

abbrev first_of_february : ℕ
first_of_february = 31 * day_length + 5

abbrev january : ℕ → PartitionPeriod
january day = day_period "proxied_request_metrics_year_0_month_0_day_0" day

abbrev february : ℕ → PartitionPeriod
february day = day_period "proxied_request_metrics_year0_month0_day0" day

abbrev noon_partitions : List PartitionPeriod
noon_partitions = january 28 ∷ january 29 ∷ january 30 ∷ february 32 ∷ february 33 ∷ []

noon_remaining : remaining_days noon ≡ 3
unfolding date_of_day next_date days_in
noon_remaining = refl

noon_made : partitions_for_period print noon (pos 5) ≡ ok noon_partitions
unfolding partitions_for_period partition_loop future_partitions days_in_month date_of_day next_date
    days_in
noon_made = refl

gap_example : ¬ IsWithin first_of_february (february 32)
gap_example =
    first_day_missing print noon 5 3 first_of_february noon_partitions (february 32) (omega arith)
      (omega (arith, noon_remaining)) (omega arith) (omega (arith, noon_remaining)) noon_made refl

-- The open transactions, and the failed queries: each query fails.
abbrev pub sample_sql : Sql (ℕ × ℕ)
sample_sql = record {
  begin_tx = λ (o, f). ((suc o, f), none);
  tx_exec = λ q d. (d, none);
  tx_rollback = λ (o, f). ((o - 1, f), none);
  tx_commit = λ (o, f). ((o - 1, f), none);
  exec = λ q d. (d, none);
  query_has_row = λ q (o, f). ((o, suc f), none);
  close_rows = λ d. d;
}

sample_sql-TxLaws : TxLaws sample_sql (λ d. d.0) (λ d. d.1)
sample_sql-TxLaws = record {
  begin_open = λ d h. refl;
  begin_failed = λ d h. cc;
  rollback_ends = λ d. refl;
  commit_ends = λ d. refl;
  tx_exec_keeps = λ q d. refl;
  exec_keeps = λ q d. refl;
  query_keeps = λ q d. refl;
  close_keeps = λ d. refl;
  query_failed = λ q d h. refl;
  query_ok = λ q d h. cc;
  begin_fails_none = λ d. refl;
  rollback_fails_none = λ d. refl;
  commit_fails_none = λ d. refl;
  tx_exec_fails_none = λ q d. refl;
  exec_fails_none = λ q d. refl;
  close_fails_none = λ d. refl;
}

transactions_example :
    let after = (partition sample_sql print print noon (pos 5) (0, 0)).0 in
    after.0 + 0 ≡ 0 + after.1
transactions_example =
    transactions_ended sample_sql print (λ d. d.0) (λ d. d.1) sample_sql-TxLaws print noon (pos 5)
      (0, 0)
