-- ===== src/Datetime/Years.antt =====
-- The two loops over the years: one adds up the days, the other takes them away again.
use lhassa.Base.{
  ℕ, zero, suc, ◌+◌, ◌-◌, ◌≤◌, ◌<◌, ◌≡◌, refl, arith, leb, leb→le, all_below, all_below_sound, true,
  ltb, Bool-cases, inl, inr,
}
use lhassa.Datetime.{is_leap_year, year_days, add_years, find_year}

-- The days of `n` years from `y` on.
pub sum_years : ℕ → ℕ → ℕ
sum_years zero y = 0
sum_years (suc n) y = year_days y + sum_years n (y + 1)

pub add_years-sum : (n y days : ℕ) → add_years n y days ≡ days + sum_years n y
unfolding add_years sum_years
add_years-sum zero y days = omega arith
add_years-sum (suc n) y days = omega (arith, add_years-sum n (y + 1) (days + year_days y))

-- Whole years are skipped, and the days left over stay.
pub find_year-sum :
    (n k y r t : ℕ)
    → k < n
    → t ≡ y + k
    → r < year_days t
    → find_year n (sum_years k y + r) y ≡ (t, r)
unfolding find_year sum_years
find_year-sum zero k y r t p e h = absurd (omega arith)
find_year-sum (suc n) zero y r t p e h = let e' : t ≡ y = omega arith in ground arith
find_year-sum (suc n) (suc k) y r t p e h =
    let less : year_days y + sum_years k (y + 1) + r - year_days y ≡ sum_years k (y + 1) + r =
      omega arith in
    let ih = find_year-sum n k (y + 1) r t (omega arith) (omega arith) h in ground (arith, less, ih)

-- What the search for the year found.
pub record FoundYear (n days y : ℕ) (out : ℕ × ℕ) : Type 0 where
  pub k : ℕ
  pub r : ℕ
  pub returns : out ≡ (y + k, r)
  pub in_time : k < n
  pub in_year : r < year_days (y + k)
  pub total : days ≡ sum_years k y + r

pub find_year-FoundYear :
    (n days y : ℕ) → days < sum_years n y → FoundYear n days y (find_year n days y)
unfolding find_year sum_years
find_year-FoundYear zero days y h = absurd (omega arith)
find_year-FoundYear (suc n) days y h = elim (Bool-cases (ltb days (year_days y))) [
  | inl here ↦ record {
    k = 0;
    r = days;
    returns = ground (arith, here);
    in_time = omega arith;
    in_year = ground (arith, here);
    total = omega arith;
  }
  | inr later ↦
      let ih = find_year-FoundYear n (days - year_days y) (y + 1) (ground (arith, later)) in
      record {
        k = suc ih.k;
        r = ih.r;
        returns = ground (arith, later, ih.returns);
        in_time = omega (arith, ih.in_time);
        in_year = ground (arith, ih.in_year);
        total = ground (arith, later, ih.total);
      }
]

-- All days from 1970 to the end of 2105 have numbers that 32 bits of seconds reach.
years_check : all_below 136 (λ k. leb (sum_years k 1970 + year_days (1970 + k)) 49710) ≡ true
unfolding all_below sum_years is_leap_year
years_check = refl

pub sum_years-le : (k : ℕ) → k < 136 → sum_years k 1970 + year_days (1970 + k) ≤ 49710
sum_years-le k h = leb→le _ _ (all_below_sound 136 _ k years_check h)

pub sum_all_years : 49711 ≤ sum_years 138 1970
unfolding sum_years is_leap_year
sum_all_years = omega arith
