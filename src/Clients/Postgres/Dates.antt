-- ===== src/Clients/Postgres/Dates.antt =====
-- Times of the Go library in UTC, as nanoseconds since the start of year 1: Date, Add and Truncate, in
-- the Gregorian calendar. clients/database/postgres/partition.go: daysInMonth.
use kava_proxy_service.Base.{
  ℕ, zero, suc, ◌+◌, ◌*◌, ◌/◌, ◌%◌, ◌≤◌, ◌<◌, Bool, false, not, ◌&&◌, ◌||◌, ◌==◌, ltb,
  if◌then◌else◌, ◌≡◌, refl, ap, ◌∙◌, arith, ltb_iff, Bool-cases, inl, inr,
}

pub record Date : Type 0 where
  pub year : ℕ
  pub month : ℕ
  pub day : ℕ

abbrev pub is_leap : ℕ → Bool
is_leap y = (y % 4 == 0) && (not (y % 100 == 0) || (y % 400 == 0))

unfoldable pub days_in : ℕ → ℕ → ℕ
days_in y m =
    if m == 2
    then if is_leap y then 29 else 28
    else if (m == 4) || ((m == 6) || ((m == 9) || (m == 11)))
    then 30
    else 31

unfoldable pub next_date : Date → Date
next_date date =
    if ltb date.day (days_in date.year date.month)
    then record date { day = date.day + 1 }
    else if ltb date.month 12
    then record { year = date.year; month = date.month + 1; day = 1 }
    else record { year = date.year + 1; month = 1; day = 1 }

-- The date of a day, counted from January 1 of year 1.
unfoldable pub date_of_day : ℕ → Date
date_of_day zero = record { year = 1; month = 1; day = 1 }
date_of_day (suc n) = next_date (date_of_day n)

-- 24 hours
abbrev pub day_length : ℕ
day_length = 86400000000000

-- t.Date()
abbrev pub date_of : ℕ → Date
date_of t = date_of_day (t / day_length)

-- t.Truncate(24 * time.Hour)
abbrev pub truncate : ℕ → ℕ
truncate t = t / day_length * day_length

-- time.Date(y, m+1, 0, ...).Day(): the day before the first of the next month
unfoldable pub days_in_month : ℕ → ℕ
unfolding days_in
days_in_month t = days_in (date_of t).year (date_of t).month

-- A day of its month.
abbrev pub IsDate : Date → Type 0
IsDate date = (1 ≤ date.day) × (date.day ≤ days_in date.year date.month)

pub days_in_low : (y m : ℕ) → 28 ≤ days_in y m
unfolding days_in
days_in_low y m = ground arith

next_date-IsDate : (date : Date) → IsDate date → IsDate (next_date date)
unfolding next_date
next_date-IsDate date (low, high) =
    elim (Bool-cases (ltb date.day (days_in date.year date.month))) [
      | inl inside ↦ rw inside (omega arith, ground arith)
      | inr last ↦ rw last (elim (Bool-cases (ltb date.month 12)) [
        | inl e ↦ rw e (omega arith, omega (arith, days_in_low date.year (date.month + 1)))
        | inr e ↦ rw e (omega arith, omega (arith, days_in_low (date.year + 1) 1))
      ])
    ]

pub date_of_day-IsDate : (n : ℕ) → IsDate (date_of_day n)
unfolding date_of_day
date_of_day-IsDate zero = (omega arith, omega (arith, days_in_low 1 1))
date_of_day-IsDate (suc n) = next_date-IsDate (date_of_day n) (date_of_day-IsDate n)

next_date_inside :
    (y m d : ℕ)
    → d < days_in y m
    → next_date (record { year = y; month = m; day = d })
      ≡ record { year = y; month = m; day = d + 1 }
unfolding next_date
next_date_inside y m d h = rw ((ltb_iff d (days_in y m)).1 h) refl

-- Days later in one month.
pub date_of_day_later :
    (n i y m d : ℕ)
    → date_of_day n ≡ record { year = y; month = m; day = d }
    → d + i ≤ days_in y m
    → date_of_day (n + i) ≡ record { year = y; month = m; day = d + i }
unfolding date_of_day
date_of_day_later n zero y m d e h =
    let same : n + 0 ≡ n = omega arith in
    let same_day : d ≡ d + 0 = omega arith in
    ap date_of_day same ∙ e ∙ ap (λ k. record { year = y; month = m; day = k }) same_day
date_of_day_later n (suc i) y m d e h =
    let same : n + suc i ≡ suc (n + i) = omega arith in
    let same_day : d + i + 1 ≡ d + suc i = omega arith in
    ap date_of_day same
    ∙ ap next_date (date_of_day_later n i y m d e (omega arith))
    ∙ next_date_inside y m (d + i) (omega arith)
    ∙ ap (λ k. record { year = y; month = m; day = k }) same_day

next_date_last :
    (y m d : ℕ)
    → d ≡ days_in y m
    → (next : ℕ × ℕ) × (next_date (record { year = y; month = m; day = d })
        ≡ record { year = next.0; month = next.1; day = 1 })
unfolding next_date
next_date_last y m d h =
    let past : ltb d (days_in y m) ≡ false = ground arith in
    elim (Bool-cases (ltb m 12)) [
      | inl e ↦ ((y, m + 1), rw (past, e) refl)
      | inr e ↦ ((y + 1, 1), rw (past, e) refl)
    ]

-- The day after the last day of a month is the first of a month.
pub first_of_next_month :
    (n i y m d : ℕ)
    → date_of_day n ≡ record { year = y; month = m; day = d }
    → d + i ≡ days_in y m
    → (next : ℕ × ℕ) × (date_of_day (n + i + 1) ≡ record { year = next.0; month = next.1; day = 1 })
unfolding date_of_day
first_of_next_month n i y m d e h =
    let (next, first) = next_date_last y m (d + i) h in
    let same : n + i + 1 ≡ suc (n + i) = omega arith in
    (next, ap date_of_day same ∙ ap next_date (date_of_day_later n i y m d e (omega arith)) ∙ first)
