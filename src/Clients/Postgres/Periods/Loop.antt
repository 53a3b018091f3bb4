-- ===== src/Clients/Postgres/Periods/Loop.antt =====
-- The elements of the loops of PartitionsForPeriod, and the days that they stand for.
use kava_proxy_service.Base.{
  Bool, ℕ, zero, suc, ◌+◌, ◌-◌, ◌*◌, ◌/◌, ◌≤◌, ◌<◌, String, List, [], length, get_elem?, some, ltb,
  Bool-cases, inl, inr, ok, err, Error, lt_ℤ, pos, if◌then◌else◌, ◌≡◌, refl, sym, ap, ◌∙◌, arith,
  true, false,
}
use kava_proxy_service.Clients.Postgres.Dates.{
  Date, date_of_day, date_of_day-IsDate, date_of_day_later, first_of_next_month, date_of,
  day_length, truncate, days_in, days_in_low,
}
use kava_proxy_service.Clients.Postgres.Periods.{
  PartitionPeriod, partition_loop, partition_name, min, current_name, future_name,
}

-- The partition with a name for one day.
abbrev pub day_period : String → ℕ → PartitionPeriod
day_period name day = record {
  table_name = name;
  inclusive_start_period = day * day_length;
  exclusive_end_period = (day + 1) * day_length;
}

pub length-partition_loop :
    (name : ℕ → String) (start i count : ℕ) → length (partition_loop name start i count) ≡ count
unfolding partition_loop
length-partition_loop name start i zero = refl
length-partition_loop name start i (suc count) =
    ap suc (length-partition_loop name start (i + 1) count)

get_elem?-partition_loop :
    (name : ℕ → String) (start i count j : ℕ)
    → j < count
    → get_elem? (partition_loop name start i count) j
      ≡ some (day_period (name (i + j)) (start / day_length + (i + j)))
unfolding partition_loop
get_elem?-partition_loop name start i zero j h = elim (h) [ ]
get_elem?-partition_loop name start i (suc count) zero h =
    let same : i + 0 ≡ i = omega arith in
    let first : truncate (start + i * day_length) ≡ (start / day_length + (i + 0)) * day_length =
      omega arith in
    let last : truncate (start + (i + 1) * day_length)
        ≡ (start / day_length + (i + 0) + 1) * day_length =
      omega arith in
    rw (first, last, same) refl
get_elem?-partition_loop name start i (suc count) (suc j) h =
    let same : i + 1 + j ≡ i + suc j = omega arith in
    get_elem?-partition_loop name start (i + 1) count j (omega arith)
    ∙ ap (λ k. some (day_period (name k) (start / day_length + k))) same

-- The days that remain in the month, today included.
abbrev pub remaining_days : ℕ → ℕ
remaining_days start = days_in (date_of start).year (date_of start).month + 1 - (date_of start).day

-- The element of the loop at `j` when its name is that of the date `j` days after the first.
dated_element :
    (name : Date → ℕ → String) (start y m d count j : ℕ)
    → ((k : ℕ)
        → name (record { year = y; month = m; day = d }) k
          ≡ name (record { year = y; month = m; day = d + k }) 0)
    → date_of start ≡ record { year = y; month = m; day = d }
    → d + j ≤ days_in y m
    → j < count
    → get_elem? (partition_loop (name (date_of start)) start 0 count) j
      ≡ some (day_period (name (date_of_day (start / day_length + j)) 0) (start / day_length + j))
dated_element name start y m d count j shift e inside h =
    let same : 0 + j ≡ j = omega arith in
    get_elem?-partition_loop (name (date_of start)) start 0 count j h
    ∙ ap (λ k. some (day_period (name (date_of start) k) (start / day_length + k))) same
    ∙ ap (λ x. some (day_period x (start / day_length + j)))
        (ap (λ x. name x j) e
          ∙ shift j
          ∙ ap (λ x. name x 0) (sym (date_of_day_later (start / day_length) j y m d e inside)))

pub taken {ℓ} : {A : Type ℓ} {b : Bool} (x y : A) → b ≡ true → (if b then x else y) ≡ x
taken x y e = rw e refl

pub not_taken {ℓ} : {A : Type ℓ} {b : Bool} (x y : A) → b ≡ false → (if b then x else y) ≡ y
not_taken x y e = rw e refl

pub not_below : (i n : ℕ) → ltb i n ≡ false → n ≤ i
not_below i n e = ground arith

pub min_above : (i a b : ℕ) → ltb i a ≡ true → i < b → i < min a b
min_above i a b h k = ground arith

pub min_left : (a b : ℕ) → a ≤ b → min a b ≡ a
min_left a b h = ground arith

pub allowed :
    (n : ℕ)
    → n ≤ 28
    → (ps : List PartitionPeriod) (e : Error)
    → (if lt_ℤ (pos 28) (pos n) then err e else ok ps) ≡ ok ps
allowed n h ps e = let few : lt_ℤ (pos 28) (pos n) ≡ false = ground arith in not_taken _ _ few

-- The partitions of the two months are as many as were asked for.
pub both_months :
    (r n : ℕ) (future : List PartitionPeriod)
    → length future ≡ n - r
    → min r n + length (if ltb r n then future else []) ≡ n
both_months r n future h = elim (Bool-cases (ltb r n)) [
  | inl e ↦ rw e (ground (arith, h))
  | inr e ↦ rw e (ground arith)
]

later_day : (start k : ℕ) → (start + day_length * k) / day_length ≡ start / day_length + k
later_day start k = omega arith

module _ (print_number : ℕ → String) where
  current_name_shift :
      (y m d k : ℕ)
      → current_name print_number (record { year = y; month = m; day = d }) k
        ≡ current_name print_number (record { year = y; month = m; day = d + k }) 0
  current_name_shift y m d k =
      let same : d + k ≡ d + k + 0 = omega arith in
      ap (λ x. partition_name print_number "_year_" "_month_" "_day_" y m x) same

  future_name_shift :
      (y m d k : ℕ)
      → future_name print_number (record { year = y; month = m; day = d }) k
        ≡ future_name print_number (record { year = y; month = m; day = d + k }) 0
  future_name_shift y m d k =
      let same : d + k ≡ d + k + 0 = omega arith in
      ap (λ x. partition_name print_number "_year" "_month" "_day" y m x) same

  pub current_day :
      (start count j : ℕ)
      → j < count
      → j < remaining_days start
      → get_elem? (partition_loop (current_name print_number (date_of start)) start 0 count) j
        ≡ some (
            day_period
              (current_name print_number (date_of_day (start / day_length + j)) 0)
              (start / day_length + j))
  current_day start count j h within =
      let (low, high) = date_of_day-IsDate (start / day_length) in
      dated_element (current_name print_number) start (date_of start).year (date_of start).month
        (date_of start).day count j
        (current_name_shift (date_of start).year (date_of start).month (date_of start).day) refl
        (omega arith) h

  -- The second day of the next month.
  second_of_next_month :
      (start : ℕ)
      → (next : ℕ × ℕ) × (date_of (start + day_length * (remaining_days start + 1))
          ≡ record { year = next.0; month = next.1; day = 2 })
  second_of_next_month start =
      let day = start / day_length in
      let date = date_of start in
      let (low, high) = date_of_day-IsDate day in
      let left = days_in date.year date.month - date.day in
      let (next, first) =
        first_of_next_month day left date.year date.month date.day refl (omega arith) in
      let second =
        date_of_day_later (day + left + 1) 1 next.0 next.1 1 first
          (omega (arith, days_in_low next.0 next.1)) in
      let same : (start + day_length * (remaining_days start + 1)) / day_length
          ≡ day + left + 1 + 1 =
        later_day start (remaining_days start + 1) ∙ omega (arith, low, high) in
      (next, ap date_of_day same ∙ second)

  pub future_day :
      (start count j : ℕ)
      → j < count
      → count < 28
      → let future_month = start + day_length * (remaining_days start + 1) in
        get_elem?
          (partition_loop (future_name print_number (date_of future_month)) future_month 0 count)
          j
        ≡ some (
            day_period
              (future_name print_number
                (date_of_day (start / day_length + (remaining_days start + 1) + j))
                0)
              (start / day_length + (remaining_days start + 1) + j))
  future_day start count j h few =
      let (next, second) = second_of_next_month start in
      let future_month = start + day_length * (remaining_days start + 1) in
      let same : future_month / day_length + j
          ≡ start / day_length + (remaining_days start + 1) + j =
        ap (λ k. k + j) (later_day start (remaining_days start + 1)) in
      dated_element (future_name print_number) future_month next.0 next.1 2 count j
        (future_name_shift next.0 next.1 2) second (omega (arith, days_in_low next.0 next.1)) h
      ∙ ap (λ k. some (day_period (future_name print_number (date_of_day k) 0) k)) same
