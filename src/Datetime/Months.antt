-- ===== src/Datetime/Months.antt =====
-- Months and days within a year. The twelve months are looked at one by one.
use lhassa.Base.{
  ℕ, zero, suc, ◌+◌, ◌-◌, ◌≤◌, ◌<◌, ◌≡◌, refl, ap, ◌∙◌, Bool, true, false, ◌&&◌, some, get_or,
  get_elem?-eq-get_or, arith, ltb, leb, ◌==◌, if◌then◌else◌, all_below, all_below_sound,
}
use lhassa.Datetime.{days_in_month, add_months, find_month}

-- The number of days of a month, counted from 1.
abbrev pub month_days : Bool → ℕ → ℕ
month_days leap m =
    if m == 2 && leap then get_or days_in_month (m - 1) 0 + 1 else get_or days_in_month (m - 1) 0

-- The days of `n` months from month `m` on.
pub sum_months : Bool → ℕ → ℕ → ℕ
sum_months leap zero m = 0
sum_months leap (suc n) m = month_days leap m + sum_months leap n (m + 1)

pub add_months-sum :
    (leap : Bool) (n m days : ℕ)
    → 1 ≤ m
    → m + n ≤ 13
    → add_months leap n m days ≡ some (days + sum_months leap n m)
unfolding add_months sum_months
add_months-sum leap zero m days h p = ap some (omega arith)
add_months-sum leap (suc n) m days h p =
    rw (get_elem?-eq-get_or days_in_month (m - 1) 0 (omega arith), add_months)
      (add_months-sum leap n (m + 1) (days + month_days leap m) (omega arith) (omega arith)
        ∙ ap some (omega arith))

-- Whether the search for a day of a month finds that month and day, and the day is in the year.
finds : Bool → ℕ → ℕ → Bool
finds leap m d =
    let found = find_month leap days_in_month 0 (sum_months leap m 1 + d) in
    found.0 == m + 1
    && (found.1 == d + 1 && ltb (sum_months leap m 1 + d) (if leap then 366 else 365))

-- Whether what the search finds is a day of the year with that number.
is_found : Bool → ℕ → Bool
is_found leap days =
    let found = find_month leap days_in_month 0 days in
    leb 1 found.0
    && (leb found.0 12
        && (leb 1 found.1
            && (leb found.1 (month_days leap found.0)
                && (sum_months leap (found.0 - 1) 1 + (found.1 - 1) == days))))

finds_check :
    (leap : Bool) → all_below 12 (λ m. all_below (month_days leap (m + 1)) (finds leap m)) ≡ true
unfolding all_below finds find_month sum_months
finds_check true = refl
finds_check false = refl

is_found_check : (leap : Bool) → all_below (if leap then 366 else 365) (is_found leap) ≡ true
unfolding all_below is_found find_month sum_months
is_found_check true = refl
is_found_check false = refl

finds_lem :
    (leap : Bool) (m d : ℕ)
    → finds leap m d ≡ true
    → (find_month leap days_in_month 0 (sum_months leap m 1 + d) ≡ (m + 1, d + 1))
      × (sum_months leap m 1 + d < (if leap then 366 else 365))
unfolding finds
finds_lem leap m d h = ground arith

pub find_month-sum :
    (leap : Bool) (m d : ℕ)
    → m < 12
    → d < month_days leap (m + 1)
    → (find_month leap days_in_month 0 (sum_months leap m 1 + d) ≡ (m + 1, d + 1))
      × (sum_months leap m 1 + d < (if leap then 366 else 365))
find_month-sum leap m d h p = finds_lem leap m d (
    all_below_sound (month_days leap (m + 1)) (finds leap m) d
      (all_below_sound 12 (λ k. all_below (month_days leap (k + 1)) (finds leap k)) m
        (finds_check leap) h)
      p)

-- What the search for the month found.
pub record FoundMonth (leap : Bool) (days : ℕ) (out : ℕ × ℕ) : Type 0 where
  pub month_from : 1 ≤ out.0
  pub month_to : out.0 ≤ 12
  pub day_from : 1 ≤ out.1
  pub day_to : out.1 ≤ month_days leap out.0
  pub total : days ≡ sum_months leap (out.0 - 1) 1 + (out.1 - 1)

found_lem :
    (leap : Bool) (days : ℕ)
    → is_found leap days ≡ true
    → FoundMonth leap days (find_month leap days_in_month 0 days)
unfolding is_found
found_lem leap days h = ground arith

pub find_month-FoundMonth :
    (leap : Bool) (days : ℕ)
    → days < (if leap then 366 else 365)
    → FoundMonth leap days (find_month leap days_in_month 0 days)
find_month-FoundMonth leap days h =
    found_lem leap days
      (all_below_sound (if leap then 366 else 365) (is_found leap) days (is_found_check leap) h)
