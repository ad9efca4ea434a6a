-- ===== src/Date.antt =====
-- src/date.c: `epoch_to_utc`, which breaks a time in seconds since 1970 into the fields of
-- `struct tm`. `time_t` and `int` are integers; `none` stands for what C leaves undefined or to
-- the implementation: a number that does not fit an `int`, or a table index out of range.
mod Table
pub mod Calendar
pub mod Lands
pub mod Correct
mod Tests
pub mod Negative
pub use Table.{YdayInfo}
unfoldable pub use Table.{yday_info}
use fsdyn.Prelude.{
  ℕ, ◌+◌, ◌*◌, ◌^◌, Option, none, some, ◌>>=◌, Bool, false, if◌then◌else◌, get_elem?, ◌==◌,
}
use fsdyn.Prelude.Int.{ℤ, pos, negsuc, ◌+ℤ◌, scale, div_trunc, mod_trunc, fits}

-- The fields of `struct tm` that the function writes.
pub record Tm : Type 0 where
  pub tm_sec : ℤ
  pub tm_min : ℤ
  pub tm_hour : ℤ
  pub tm_mday : ℤ
  pub tm_mon : ℤ
  pub tm_year : ℤ
  pub tm_wday : ℤ
  pub tm_yday : ℤ
  pub tm_isdst : ℤ

-- A conversion to `int`, and the result of an `int` addition.
abbrev pub to_int : ℤ → Option ℤ
to_int z = if fits (2 ^ 31) z then some z else none

-- `&YDAY_INFO[days]`, read.
abbrev pub yday_entry : ℤ → Option YdayInfo
yday_entry (pos i) = get_elem? yday_info i
yday_entry (negsuc i) = none

-- The enumeration of constants in the function's body.
abbrev pub seconds_per_day : ℕ
seconds_per_day = 86400

abbrev pub from_1600_03_01 : ℕ
from_1600_03_01 = 135080

abbrev pub year : ℕ
year = 365

abbrev pub century : ℕ
century = 100 * year + 24

abbrev pub _400_years : ℕ
_400_years = 4 * century + 1

abbrev pub _4_years : ℕ
_4_years = 4 * year + 1

abbrev pub february : ℕ
february = 1

abbrev pub is_four : ℤ → Bool
is_four (pos n) = n == 4
is_four (negsuc n) = false

-- The part of the function behind `days %= YEAR`.
unfoldable pub within_year : Tm → ℤ → Option Tm
within_year tm days = do
  info ← yday_entry days
  some (record tm {
    tm_year = tm.tm_year +ℤ pos info.year_offset;
    tm_mon = pos info.month;
    tm_mday = pos info.mday;
  })

-- The part behind `days %= CENTURY`.
unfoldable pub within_century : Tm → ℤ → Option Tm
within_century tm d =
    let year_1 = tm.tm_year +ℤ scale 4 (div_trunc d _4_years) in
    let days = mod_trunc d _4_years in
    let years = div_trunc days year in
    let year_2 = year_1 +ℤ years in
    if is_four years
    then some (record tm { tm_year = year_2; tm_mon = pos february; tm_mday = pos 29 })
    else within_year (record tm { tm_year = year_2 }) (mod_trunc days year)

-- The part behind `days %= _400_YEARS`.
unfoldable pub within_400_years : Tm → ℤ → Option Tm
within_400_years tm days =
    let centuries = div_trunc days century in
    let year_1 = tm.tm_year +ℤ scale 100 centuries in
    if is_four centuries
    then some (record tm { tm_year = year_1; tm_mon = pos february; tm_mday = pos 29 })
    else within_century (record tm { tm_year = year_1 }) (mod_trunc days century)

-- `tm->tm_mon` and `tm->tm_mday` are written last, and read as 0 until then.
unfoldable pub epoch_to_utc : ℤ → Option Tm
epoch_to_utc epoch = do
  let second_of_day = mod_trunc epoch seconds_per_day
  let minute_of_day = div_trunc second_of_day 60
  days ← to_int (div_trunc epoch seconds_per_day)
  weekday ← to_int (days +ℤ pos 4)
  days' ← to_int (days +ℤ pos from_1600_03_01)
  within_400_years
      (record {
        tm_sec = mod_trunc second_of_day 60;
        tm_min = mod_trunc minute_of_day 60;
        tm_hour = div_trunc minute_of_day 60;
        tm_mday = pos 0;
        tm_mon = pos 0;
        tm_year = pos 1600 +ℤ scale 400 (div_trunc days' _400_years) +ℤ negsuc 1899;
        tm_wday = mod_trunc weekday 7;
        tm_yday = negsuc 0;
        tm_isdst = pos 0;
      })
      (mod_trunc days' _400_years)
