-- ===== src/Clients/Postgres/Periods/Days.antt =====
-- The days that PartitionsForPeriod makes partitions for.
use kava_proxy_service.Base.{
  ℕ, ◌+◌, ◌-◌, ◌*◌, ◌/◌, ◌≤◌, ◌<◌, String, List, ◌++◌, length, length-append, get_elem?,
  get_elem?-append_left, get_elem?-append_right, some, ltb, ltb_iff, Bool-cases, inl, inr, ok, pos,
  if◌then◌else◌, ◌≡◌, sym, ap, ◌∙◌, subst, arith, true, false,
}
use kava_proxy_service.Clients.Postgres.Dates.{
  date_of_day, date_of_day-IsDate, date_of, day_length, days_in_month,
}
use kava_proxy_service.Clients.Postgres.Periods.{
  PartitionPeriod, partition_loop, min, current_name, future_name, future_partitions,
  partitions_for_period,
}
use kava_proxy_service.Clients.Postgres.Periods.Loop.{
  day_period, remaining_days, length-partition_loop, taken, not_taken, not_below, min_above,
  min_left, allowed, both_months, current_day, future_day,
}

module _ (print_number : ℕ → String) where
  -- The partition at an index: past the end of the month, the first day is left out.
  abbrev pub period_at : ℕ → ℕ → PartitionPeriod
  period_at start i =
      if ltb i (remaining_days start)
      then day_period (current_name print_number (date_of_day (start / day_length + i)) 0)
          (start / day_length + i)
      else day_period (future_name print_number (date_of_day (start / day_length + i + 1)) 0)
          (start / day_length + i + 1)

  all_partitions :
      (start n : ℕ)
      → length (
          partition_loop
            (current_name print_number (date_of start))
            start
            0
            (min (remaining_days start) n)
          ++ future_partitions print_number start (remaining_days start) n)
        ≡ n
  unfolding future_partitions
  all_partitions start n =
      length-append
        (partition_loop (current_name print_number (date_of start)) start 0
          (min (remaining_days start) n))
        _
      ∙ ap (λ k. k + length (future_partitions print_number start (remaining_days start) n))
          (length-partition_loop (current_name print_number (date_of start)) start 0 _)
      ∙ both_months (remaining_days start) n _ (
          length-partition_loop
            (future_name print_number (date_of (start + day_length * (remaining_days start + 1))))
            (start + day_length * (remaining_days start + 1)) 0 (n - remaining_days start))

  current_partitions_at :
      (start n i : ℕ) (future : List PartitionPeriod)
      → i < n
      → ltb i (remaining_days start) ≡ true
      → get_elem?
          (partition_loop
              (current_name print_number (date_of start))
              start
              0
              (min (remaining_days start) n)
            ++ future)
          i
        ≡ some (period_at start i)
  current_partitions_at start n i future h inside =
      let below : i < min (remaining_days start) n =
        min_above i (remaining_days start) n inside h in
      get_elem?-append_left _ future i (
        subst (λ k. i < k) (sym (length-partition_loop _ start 0 (min (remaining_days start) n)))
          below)
      ∙ current_day print_number start (min (remaining_days start) n) i below
          ((ltb_iff i _).0 inside)
      ∙ ap some (sym (taken _ _ inside))

  future_partitions_at :
      (start n i : ℕ)
      → n ≤ 28
      → i < n
      → ltb i (remaining_days start) ≡ false
      → get_elem?
          (future_partitions print_number start (remaining_days start) n)
          (i - remaining_days start)
        ≡ some (period_at start i)
  unfolding future_partitions
  future_partitions_at start n i few h outside =
      let (low, high) = date_of_day-IsDate (start / day_length) in
      let start_month : 1 ≤ remaining_days start = omega (arith, low, high) in
      let after : remaining_days start ≤ i = not_below i (remaining_days start) outside in
      let crossing : ltb (remaining_days start) n ≡ true =
        (ltb_iff _ n).1 (omega (arith, after, h)) in
      let same : start / day_length + (remaining_days start + 1) + (i - remaining_days start)
          ≡ start / day_length + i + 1 =
        omega (arith, after) in
      ap (λ ps. get_elem? ps (i - remaining_days start)) (taken _ _ crossing)
      ∙ future_day print_number start (n - remaining_days start) (i - remaining_days start)
          (omega (arith, after, h)) (omega (arith, few, h, start_month))
      ∙ ap (λ k. some (day_period (future_name print_number (date_of_day k) 0) k)) same
      ∙ ap some (sym (not_taken _ _ outside))

  partitions_at :
      (start n i : ℕ)
      → n ≤ 28
      → i < n
      → get_elem?
          (partition_loop
              (current_name print_number (date_of start))
              start
              0
              (min (remaining_days start) n)
            ++ future_partitions print_number start (remaining_days start) n)
          i
        ≡ some (period_at start i)
  partitions_at start n i few h = elim (Bool-cases (ltb i (remaining_days start))) [
    | inl inside ↦ current_partitions_at start n i _ h inside
    | inr outside ↦
        let after = not_below i (remaining_days start) outside in
        let all : min (remaining_days start) n ≡ remaining_days start =
          min_left (remaining_days start) n (omega (arith, after, h)) in
        let current =
          partition_loop (current_name print_number (date_of start)) start 0
            (min (remaining_days start) n) in
        let same : i ≡ length current + (i - remaining_days start) = omega (
          arith,
          after,
          length-partition_loop (current_name print_number (date_of start)) start 0
              (min (remaining_days start) n),
          all,
        ) in
        ap (get_elem? (current ++ future_partitions print_number start (remaining_days start) n))
          same
        ∙ get_elem?-append_right current _ (i - remaining_days start)
        ∙ future_partitions_at start n i few h outside
  ]

  -- For at most 28 days, PartitionsForPeriod returns as many partitions. The partition at an index is
  -- the whole day in UTC that lies this number of days after the day of the start, as long as it is in
  -- the same month, and otherwise the day after that one; it is named by its own date, with the labels
  -- of the current or of the next month.
  pub partition_days :
      (start n i : ℕ)
      → n ≤ 28
      → i < n
      → (ps : List PartitionPeriod) × (partitions_for_period print_number start (pos n) ≡ ok ps)
        × (length ps ≡ n)
        × (get_elem? ps i ≡ some (period_at start i))
  unfolding partitions_for_period days_in_month
  partition_days start n i few h = (
    partition_loop (current_name print_number (date_of start)) start 0
          (min (remaining_days start) n)
        ++ future_partitions print_number start (remaining_days start) n,
    allowed n few _ _,
    all_partitions start n,
    partitions_at start n i few h,
  )
