-- ===== src/Clients/Postgres/Periods/Gap.antt =====
-- The day that PartitionsForPeriod leaves out.
use kava_proxy_service.Base.{
  ℕ, ◌+◌, ◌/◌, ◌≤◌, ◌<◌, String, List, get_elem?, some, ltb, Bool, true, false, ok, pos, ◌≡◌, refl,
  subst, arith, if◌then◌else◌,
}
use kava_proxy_service.Clients.Postgres.Dates.{day_length}
use kava_proxy_service.Clients.Postgres.Periods.{PartitionPeriod, partitions_for_period}
use kava_proxy_service.Clients.Postgres.Periods.Days.{period_at, partition_days}
use kava_proxy_service.Clients.Postgres.Periods.Loop.{day_period, remaining_days}

-- A time is in the period of a partition.
abbrev pub IsWithin : ℕ → PartitionPeriod → Type 0
IsWithin t p = (p.inclusive_start_period ≤ t) × (t < p.exclusive_end_period)

other_day :
    (b : Bool) (name name' : String) (day r i t : ℕ)
    → ltb i r ≡ b
    → t / day_length ≡ day + r
    → ¬ IsWithin t (if b then day_period name (day + i) else day_period name' (day + i + 1))
other_day true name name' day r i t e h (low, high) = ground arith
other_day false name name' day r i t e h (low, high) = ground arith

-- If at most 28 days are asked for, but more than remain in the month, today included, then no
-- partition contains a time of the first day of the next month.
pub first_day_missing :
    (print_number : ℕ → String) (start n i t : ℕ) (ps : List PartitionPeriod) (p : PartitionPeriod)
    → n ≤ 28
    → remaining_days start < n
    → i < n
    → t / day_length ≡ start / day_length + remaining_days start
    → partitions_for_period print_number start (pos n) ≡ ok ps
    → get_elem? ps i ≡ some p
    → ¬ IsWithin t p
first_day_missing print_number start n i t ps p few crossing h day made found within =
    let (made_ps, made', _, at) = partition_days print_number start n i few h in
    let same_ps : made_ps ≡ ps = cc in
    let same : p ≡ period_at print_number start i = cc in
    other_day (ltb i (remaining_days start)) _ _ (start / day_length) (remaining_days start) i t
      refl day (subst (IsWithin t) same within)
