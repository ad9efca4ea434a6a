-- ===== src/Date/Tests.antt =====
-- Runs of `epoch_to_utc`, and the theorems at concrete inputs.
use fsdyn.Prelude.{◌+◌, ◌≡◌, ◌≢◌, refl, some, arith}
use fsdyn.Prelude.Int.{pos, negsuc}
use fsdyn.Date.{yday_info, within_year, within_century, within_400_years, epoch_to_utc}
use fsdyn.Date.Calendar.{
  Civil, IsValid, day_number, days_before_year, days_in_year, is_leap, days_to_month_end,
  days_in_month, seconds,
}
use fsdyn.Date.Correct.{tm_of, epoch_1970, epoch_to_utc-tm_of}
use fsdyn.Date.Negative.{epoch_to_utc-negative}

runs : Unit {0}
unfolding yday_info within_year within_century within_400_years epoch_to_utc tm_of day_number
    days_before_year days_in_year is_leap days_to_month_end days_in_month
runs = tt

-- 2000-02-29 12:34:56, a Tuesday.
abbrev leap_day : Civil
leap_day = record { year = 2000; month = 2; day = 29; hour = 12; minute = 34; second = 56 }

leap_day_run : epoch_to_utc (pos 951827696) ≡ some (tm_of leap_day)
unfolding runs
leap_day_run = refl

-- One second before 1970: the seconds come out negative.
before_1970_run :
    epoch_to_utc (negsuc 0)
    ≡ some (record {
      tm_sec = negsuc 0;
      tm_min = pos 0;
      tm_hour = pos 0;
      tm_mday = pos 1;
      tm_mon = pos 0;
      tm_year = pos 70;
      tm_wday = pos 4;
      tm_yday = negsuc 0;
      tm_isdst = pos 0;
    })
unfolding runs
before_1970_run = refl

epoch_to_utc-tm_of_example :
    (c : Civil) × IsValid c
    × (seconds c ≡ 951827696 + epoch_1970)
    × (epoch_to_utc (pos 951827696) ≡ some (tm_of c))
epoch_to_utc-tm_of_example = epoch_to_utc-tm_of 951827696 (omega arith)

epoch_to_utc-negative_example : epoch_to_utc (negsuc 0) ≢ some (tm_of leap_day)
epoch_to_utc-negative_example = epoch_to_utc-negative 0 leap_day (omega arith)
