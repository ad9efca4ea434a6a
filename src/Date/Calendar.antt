-- ===== src/Date/Calendar.antt =====
-- The Gregorian calendar, independent of the code: leap years, and the number of days before a
-- date, counted year by year and month by month.
use native.Mathlib.Numerals.{add-one}
use fsdyn.Prelude.{
  ℕ, zero, suc, ◌+◌, ◌-◌, ◌*◌, ◌/◌, ◌%◌, ◌≤◌, ◌<◌, ◌≡◌, Bool, not, ◌&&◌, ◌||◌, ◌==◌, if◌then◌else◌,
  arith,
}

unfoldable pub is_leap : ℕ → Bool
is_leap y = y % 4 == 0 && (not (y % 100 == 0) || y % 400 == 0)

unfoldable pub days_in_year : ℕ → ℕ
days_in_year y = if is_leap y then 366 else 365

-- Month 1 is January.
unfoldable pub days_in_month : Bool → ℕ → ℕ
days_in_month leap m =
    if m == 2
    then (if leap then 29 else 28)
    else if m == 4 || m == 6 || m == 9 || m == 11
    then 30
    else 31

-- From the 1st of January of the year 0 to that of the given year.
unfoldable pub days_before_year : ℕ → ℕ
days_before_year zero = 0
days_before_year (suc y) = days_before_year y + days_in_year y

-- From the 1st of January to the last day of the m-th month.
unfoldable pub days_to_month_end : Bool → ℕ → ℕ
days_to_month_end leap zero = 0
days_to_month_end leap (suc m) = days_to_month_end leap m + days_in_month leap (suc m)

-- A date and time of day, month and day from 1.
pub record Civil : Type 0 where
  pub year : ℕ
  pub month : ℕ
  pub day : ℕ
  pub hour : ℕ
  pub minute : ℕ
  pub second : ℕ

pub record IsValid (c : Civil) : Type 0 where
  pub month_in : (1 ≤ c.month) × (c.month ≤ 12)
  pub day_in : (1 ≤ c.day) × (c.day ≤ days_in_month (is_leap c.year) c.month)
  pub hour_in : c.hour < 24
  pub minute_in : c.minute < 60
  pub second_in : c.second < 60

unfoldable pub day_number : Civil → ℕ
day_number c =
    days_before_year c.year + days_to_month_end (is_leap c.year) (c.month - 1) + (c.day - 1)

-- Seconds since the 1st of January of the year 0, in a day of 86400 seconds.
unfoldable pub seconds : Civil → ℕ
unfolding day_number
seconds c = day_number c * 86400 + c.hour * 3600 + c.minute * 60 + c.second

-- The closed form of the count of days.
pub days_before_year_closed :
    (y : ℕ) → days_before_year y + (y + 99) / 100 ≡ 365 * y + (y + 3) / 4 + (y + 399) / 400
unfolding days_before_year days_in_year is_leap
days_before_year_closed zero = omega arith
days_before_year_closed (suc y) = ground (arith, days_before_year_closed y)

pub days_before_year-suc :
    (y : ℕ) → days_before_year (y + 1) ≡ days_before_year y + (if is_leap y then 366 else 365)
unfolding days_before_year days_in_year
days_before_year-suc y = rw add-one
