-- ===== src/Datetime.antt =====
-- Source/src/lh_datetime.c: packed DOS stamps and Unix seconds. `unsigned long` has 32 bits, as on
-- the program's target.
pub mod Dos
pub mod Years
pub mod Months
pub mod Unix
use lhassa.Base.{
  ℕ, zero, suc, ◌+◌, ◌-◌, ◌*◌, ◌/◌, ◌%◌, ◌^◌, Bool, true, false, ◌&&◌, ◌||◌, Option, none, some,
  List, [], ◌∷◌, bit_or, get_elem?, ltb, ◌==◌, if◌then◌else◌,
}
use lhassa.Method.{Status, ok, err_invalid_arg}

-- `lh_datetime`
pub record DateTime : Type 0 where
  pub year : ℕ
  pub month : ℕ
  pub day : ℕ
  pub hour : ℕ
  pub minute : ℕ
  pub second : ℕ

-- `LH_SECS_PER_DAY`
abbrev pub secs_per_day : ℕ
secs_per_day = 86400

-- `lh_days_in_month`
abbrev pub days_in_month : List ℕ
days_in_month = 31 ∷ 28 ∷ 31 ∷ 30 ∷ 31 ∷ 30 ∷ 31 ∷ 31 ∷ 30 ∷ 31 ∷ 30 ∷ 31 ∷ []

-- `lh_is_leap_year`
unfoldable pub is_leap_year : ℕ → Bool
is_leap_year year =
    if year % 4 == 0 then (if year % 100 == 0 then year % 400 == 0 else true) else false

-- `lh_datetime_validate`
unfoldable pub validate : DateTime → Status
validate dt =
    if ltb dt.year 1980 || ltb 2107 dt.year
    then err_invalid_arg
    else if ltb dt.month 1 || ltb 12 dt.month
    then err_invalid_arg
    else if ltb dt.day 1 || ltb 31 dt.day
    then err_invalid_arg
    else if ltb 23 dt.hour || (ltb 59 dt.minute || ltb 59 dt.second)
    then err_invalid_arg
    else ok

-- `lh_dos_timestamp_pack`. The year is a 16-bit number and the difference is taken in 32 bits.
unfoldable pub dos_timestamp_pack : DateTime → ℕ
dos_timestamp_pack dt =
    let year = (dt.year + 2 ^ 32 - 1980) % 2 ^ 32 % 0x80 * 2 ^ 25 in
    let month = bit_or year (dt.month % 0x10 * 2 ^ 21) in
    let day = bit_or month (dt.day % 0x20 * 2 ^ 16) in
    let hour = bit_or day (dt.hour % 0x20 * 2 ^ 11) in
    let minute = bit_or hour (dt.minute % 0x40 * 2 ^ 5) in bit_or minute (dt.second / 2 % 0x20)

-- The part of `lh_datetime_pack` below the check.
pub pack_checked : DateTime → Status → Status × Option ℕ
pack_checked dt ok = (ok, some (dos_timestamp_pack dt))
pack_checked dt st = (st, none)

-- `lh_datetime_pack`: the stamp that is stored through `out`, on success only.
unfoldable pub datetime_pack : DateTime → Status × Option ℕ
unfolding pack_checked
datetime_pack dt = pack_checked dt (validate dt)

-- `lh_datetime_unpack`
unfoldable pub datetime_unpack : ℕ → DateTime
datetime_unpack packed = record {
  year = (1980 + packed / 2 ^ 25 % 0x80) % 2 ^ 16;
  month = packed / 2 ^ 21 % 0x10;
  day = packed / 2 ^ 16 % 0x20;
  hour = packed / 2 ^ 11 % 0x20;
  minute = packed / 2 ^ 5 % 0x40;
  second = packed % 0x20 * 2 % 2 ^ 8;
}

-- `ydays` of both loops over the years.
abbrev pub year_days : ℕ → ℕ
year_days year = if is_leap_year year then 366 else 365

-- The first loop of `lh_datetime_to_unix`, with the rounds left: `days` of the years from `y` on.
unfoldable pub add_years : ℕ → ℕ → ℕ → ℕ
add_years zero y days = days
add_years (suc n) y days = add_years n (y + 1) (days + year_days y)

-- The second loop, from month `m` on with the rounds left. A read outside `lh_days_in_month` is
-- undefined in C and is `none`.
unfoldable pub add_months : Bool → ℕ → ℕ → ℕ → Option ℕ
add_months leap zero m days = some days
add_months leap (suc n) m days = elim (get_elem? days_in_month (m - 1)) [
  | none ↦ none
  | some mdays ↦ add_months leap n (m + 1) (days + (if m == 2 && leap then mdays + 1 else mdays))
]

-- The end of `lh_datetime_to_unix`, in 32 bits.
abbrev pub seconds_of : DateTime → ℕ → ℕ
seconds_of dt days =
    let days' = if ltb 0 dt.day then days + (dt.day - 1) else days in
    (days' * secs_per_day + dt.hour * 3600 + dt.minute * 60 + dt.second) % 2 ^ 32

-- `lh_datetime_to_unix`
unfoldable pub datetime_to_unix : DateTime → Option ℕ
datetime_to_unix dt =
    elim (add_months (is_leap_year dt.year) (dt.month - 1) 1 (add_years (dt.year - 1970) 1970 0)) [
      | none ↦ none
      | some days ↦ some (seconds_of dt days)
    ]

-- The `while (1)` of `lh_datetime_from_unix`: it ends at the year 2108 at the latest, so the
-- rounds left are the years up to there.
unfoldable pub find_year : ℕ → ℕ → ℕ → ℕ × ℕ
find_year zero days year = (year, days)
find_year (suc n) days year =
    let rest = find_year n (days - year_days year) (year + 1) in
    if ltb days (year_days year) then (year, days) else rest

-- The loop over the months, with the part of the table from month `m` on: the month and the day.
unfoldable pub find_month : Bool → List ℕ → ℕ → ℕ → ℕ × ℕ
find_month leap [] m days = (1, 1)
find_month leap (d ∷ table) m days =
    let mdays = if m == 1 && leap then d + 1 else d in
    let rest = find_month leap table (m + 1) (days - mdays) in
    if ltb days mdays then ((m + 1) % 2 ^ 8, (days + 1) % 2 ^ 8) else rest

-- `lh_datetime_from_unix`
unfoldable pub datetime_from_unix : ℕ → DateTime
datetime_from_unix secs =
    let (year, days) = find_year 138 (secs / secs_per_day) 1970 in
    let (month, day) = find_month (is_leap_year year) days_in_month 0 days in
    let rem = secs % secs_per_day in
    record {
      year = year;
      month = month;
      day = day;
      hour = rem / 3600 % 2 ^ 8;
      minute = rem % 3600 / 60 % 2 ^ 8;
      second = rem % 3600 % 60 % 2 ^ 8;
    }
