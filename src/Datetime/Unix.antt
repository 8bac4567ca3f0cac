-- ===== src/Datetime/Unix.antt =====
-- Calendar dates and Unix seconds: `lh_datetime_to_unix` and `lh_datetime_from_unix` are inverse to
-- one another.
use lhassa.Base.{ℕ, ◌+◌, ◌-◌, ◌*◌, ◌/◌, ◌%◌, ◌^◌, ◌≤◌, ◌<◌, ◌≡◌, ap, ◌∙◌, arith, some}
use lhassa.Datetime.{
  DateTime, secs_per_day, days_in_month, is_leap_year, add_years, datetime_to_unix, find_year,
  find_month, datetime_from_unix,
}
use lhassa.Datetime.Years.{
  sum_years, add_years-sum, find_year-sum, find_year-FoundYear, sum_years-le, sum_all_years,
}
use lhassa.Datetime.Months.{
  month_days, sum_months, add_months-sum, find_month-sum, FoundMonth, find_month-FoundMonth,
}

-- A date of the calendar from 1970 to `last`, with a time of day.
pub record IsDate (last : ℕ) (dt : DateTime) : Type 0 where
  pub year_from : 1970 ≤ dt.year
  pub year_to : dt.year ≤ last
  pub month_from : 1 ≤ dt.month
  pub month_to : dt.month ≤ 12
  pub day_from : 1 ≤ dt.day
  pub day_to : dt.day ≤ month_days (is_leap_year dt.year) dt.month
  pub hour_to : dt.hour < 24
  pub minute_to : dt.minute < 60
  pub second_to : dt.second < 60

-- The number of the day, counted from 1970-01-01.
abbrev pub day_number : DateTime → ℕ
day_number dt =
    sum_years (dt.year - 1970) 1970
    + sum_months (is_leap_year dt.year) (dt.month - 1) 1
    + (dt.day - 1)

to_unix-sum :
    (last : ℕ) (dt : DateTime)
    → IsDate last dt
    → datetime_to_unix dt
      ≡ some ((day_number dt * secs_per_day + dt.hour * 3600 + dt.minute * 60 + dt.second) % 2 ^ 32)
unfolding datetime_to_unix
to_unix-sum last dt v =
    rw
      (
        add_months-sum (is_leap_year dt.year) (dt.month - 1) 1 (add_years (dt.year - 1970) 1970 0)
            (omega arith) (omega arith),
        add_years-sum (dt.year - 1970) 1970 0,
        datetime_to_unix,
      )
      (ap some (ground arith))

-- The day of a date is found again.
find_date :
    (last : ℕ) (dt : DateTime)
    → IsDate last dt
    → last ≤ 2107
    → (r : ℕ) × (find_year 138 (day_number dt) 1970 ≡ (dt.year, r))
      × (find_month (is_leap_year dt.year) days_in_month 0 r ≡ (dt.month, dt.day))
find_date last dt v h =
    let m = dt.month - 1 in
    let d = dt.day - 1 in
    let leap = is_leap_year dt.year in
    let month_of : m + 1 ≡ dt.month = omega arith in
    let found = find_month-sum leap m d (omega arith) (rw month_of (omega arith)) in
    (
      sum_months leap m 1 + d,
      ground (
        arith,
        find_year-sum 138 (dt.year - 1970) 1970 (sum_months leap m 1 + d) dt.year (omega arith)
            (omega arith) found.1,
      ),
      ground (arith, found.0),
    )

-- The days of a date before 2106 fit 32 bits of seconds.
day_number-le : (dt : DateTime) → IsDate 2105 dt → day_number dt < 49710
day_number-le dt v =
    let m = dt.month - 1 in
    let month_of : m + 1 ≡ dt.month = omega arith in
    let year_of : 1970 + (dt.year - 1970) ≡ dt.year = omega arith in
    let found =
      find_month-sum (is_leap_year dt.year) m (dt.day - 1) (omega arith)
        (rw month_of (omega arith)) in
    let bound = sum_years-le (dt.year - 1970) (omega arith) in
    omega (arith, found.1, rw year_of at bound)

-- For every date of the calendar from 1970 to 2105, `lh_datetime_to_unix` gives a number of
-- seconds that `lh_datetime_from_unix` takes back to the same date and time.
pub datetime_from_unix-to_unix :
    (dt : DateTime)
    → IsDate 2105 dt
    → (secs : ℕ) × (datetime_to_unix dt ≡ some secs) × (datetime_from_unix secs ≡ dt)
unfolding datetime_from_unix
datetime_from_unix-to_unix dt v =
    let date = find_date 2105 dt v (omega arith) in
    let bound = day_number-le dt v in
    let secs = day_number dt * secs_per_day + dt.hour * 3600 + dt.minute * 60 + dt.second in
    let day_of : secs / secs_per_day ≡ day_number dt = omega arith in
    (
      secs,
      to_unix-sum 2105 dt v ∙ ap some (omega arith),
      rw (day_of, date.1, date.2) (ground arith),
    )

-- The date of a day and a second of that day.
abbrev date_of : ℕ → ℕ × ℕ → ℕ → DateTime
date_of year (month, day) rem = record {
  year = year;
  month = month;
  day = day;
  hour = rem / 3600 % 2 ^ 8;
  minute = rem % 3600 / 60 % 2 ^ 8;
  second = rem % 3600 % 60 % 2 ^ 8;
}

date_of-IsDate :
    (k r rem : ℕ) (found : ℕ × ℕ)
    → k < 138
    → FoundMonth (is_leap_year (1970 + k)) r found
    → rem < 86400
    → IsDate 2107 (date_of (1970 + k) found rem)
      × (day_number (date_of (1970 + k) found rem) ≡ sum_years k 1970 + r)
date_of-IsDate k r rem (month, day) h f hr = (
  record {
    year_from = omega arith;
    year_to = omega arith;
    month_from = f.month_from;
    month_to = f.month_to;
    day_from = f.day_from;
    day_to = f.day_to;
    hour_to = omega arith;
    minute_to = omega arith;
    second_to = omega arith;
  },
  omega (
    arith,
    f.total,
    ap (λ (t : ℕ). sum_years t 1970) {x = 1970 + k - 1970} {y = k} (omega arith),
  ),
)

from_unix-IsDate :
    (secs : ℕ)
    → secs < 2 ^ 32
    → IsDate 2107 (datetime_from_unix secs)
      × (day_number (datetime_from_unix secs) ≡ secs / secs_per_day)
unfolding datetime_from_unix
from_unix-IsDate secs h =
    let year = find_year-FoundYear 138 (secs / secs_per_day) 1970 (omega (arith, sum_all_years)) in
    let month = find_month-FoundMonth (is_leap_year (1970 + year.k)) year.r year.in_year in
    let v = date_of-IsDate year.k year.r (secs % secs_per_day) _ year.in_time month (omega arith) in
    rw (datetime_from_unix, year.returns) (v.0, omega (arith, v.1, year.total))

-- For every 32-bit number of seconds, `lh_datetime_from_unix` gives a date of the calendar from
-- 1970 to 2107, and `lh_datetime_to_unix` takes it back to the same number.
pub datetime_to_unix-from_unix :
    (secs : ℕ)
    → secs < 2 ^ 32
    → IsDate 2107 (datetime_from_unix secs)
      × (datetime_to_unix (datetime_from_unix secs) ≡ some secs)
unfolding datetime_from_unix
datetime_to_unix-from_unix secs h =
    let v = from_unix-IsDate secs h in
    (v.0, to_unix-sum 2107 (datetime_from_unix secs) v.0 ∙ ap some (omega (arith, v.1)))
