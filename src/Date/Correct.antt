-- ===== src/Date/Correct.antt =====
-- `epoch_to_utc` from 1970 on. The function counts in years that begin in March: the lemmas follow
-- its parts from four-year cycles up to 400-year cycles.
use fsdyn.Prelude.{
  ℕ, ◌+◌, ◌-◌, ◌*◌, ◌/◌, ◌%◌, ◌^◌, ◌≤◌, ◌<◌, ◌≡◌, refl, ap, true, Option, some, lt→ltb, ne→==_false,
  ◌∙◌, arith,
}
use native.Mathlib.Decide.{ℕ_discrete}
use native.Mathlib.Nat.{add-sub_cancel}
use fsdyn.Prelude.Int.{ℤ, pos, negsuc, sub_ℕ}
use fsdyn.Date.Lands.{Lands, year-+ℤ, within_year-Lands}
use fsdyn.Date.{Tm, within_century, within_400_years, epoch_to_utc, to_int}
use fsdyn.Date.Calendar.{
  is_leap, days_in_month, days_before_year, days_to_month_end, Civil, IsValid, day_number, seconds,
  days_before_year_closed,
}

-- The base's year does not matter: the writer sets it.
Lands-year :
    (tm : Tm) (z : ℤ) (n : ℕ) (result : Option Tm)
    → Lands n (record tm { tm_year = z }) result
    → Lands n tm result
Lands-year tm z n result l = record {
  y = l.y;
  mon = l.mon;
  d = l.d;
  returns = l.returns;
  mon_in = l.mon_in;
  d_in = l.d_in;
  day_is = l.day_is;
}

-- The 29th of February of a leap year.
leap_day-Lands :
    (tm : Tm) (y n : ℕ) (z : ℤ)
    → z ≡ sub_ℕ y 1900
    → is_leap y ≡ true
    → days_before_year y + 59 ≡ n
    → Lands n tm (some (record tm { tm_year = z; tm_mon = pos 1; tm_mday = pos 29 }))
leap_day-Lands tm y n z hz leap hn = record {
  y = y;
  mon = 1;
  d = 29;
  returns = ap (λ z. some (record tm { tm_year = z; tm_mon = pos 1; tm_mday = pos 29 })) hz;
  mon_in = omega arith;
  d_in = rw leap (unfold days_in_month in omega arith);
  day_is = rw leap (unfold days_in_month days_to_month_end in omega arith);
}

four_years :
    (k q y : ℕ)
    → q ≤ 24
    → y ≤ 3
    → days_before_year (100 * k + 4 * q + y + 1)
      ≡ days_before_year (100 * k + 1) + 1461 * q + 365 * y
four_years k q y hq hy = omega (
  arith,
  days_before_year_closed (100 * k + 4 * q + y + 1),
  days_before_year_closed (100 * k + 1),
)

fourth_leap : (k q : ℕ) → q ≤ 23 → is_leap (100 * k + 4 * q + 3 + 1) ≡ true
unfolding is_leap
fourth_leap k q h = ground arith

within_century-Lands :
    (tm : Tm) (k d n : ℕ)
    → d < 36524
    → tm.tm_year ≡ sub_ℕ (100 * k) 1900
    → days_before_year (100 * k + 1) + d ≡ n + 306
    → Lands n tm (within_century tm (pos d))
unfolding within_century
within_century-Lands tm k d n hd hy hn = elim (ℕ_discrete (d % 1461 / 365) 4) [
  | yes four ↦ rw four (
      leap_day-Lands tm (100 * k + 4 * (d / 1461) + 3 + 1) n _
        (year-+ℤ _ _ 4 _ (year-+ℤ tm.tm_year _ (4 * (d / 1461)) _ hy refl) (omega arith))
        (fourth_leap k (d / 1461) (omega arith)) (omega (arith, four_years k (d / 1461) 3)))
  | no less ↦ rw (ne→==_false _ 4 less) (
      Lands-year tm _ n _ (
        within_year-Lands _ (100 * k + 4 * (d / 1461) + d % 1461 / 365) (d % 1461 % 365) n
          (omega arith)
          (year-+ℤ _ _ (d % 1461 / 365) _ (year-+ℤ tm.tm_year _ (4 * (d / 1461)) _ hy refl) refl)
          (omega (arith, four_years k (d / 1461) (d % 1461 / 365)))))
]

centuries_lem :
    (j c : ℕ)
    → c ≤ 3
    → days_before_year (100 * (4 * j + c) + 1) ≡ days_before_year (400 * j + 1) + 36524 * c
centuries_lem j c h =
    omega (
      arith,
      days_before_year_closed (100 * (4 * j + c) + 1),
      days_before_year_closed (400 * j + 1),
    )

fourth_century :
    (j : ℕ) → days_before_year (400 * j + 400) ≡ days_before_year (400 * j + 1) + 145731
fourth_century j =
    omega (arith, days_before_year_closed (400 * j + 400), days_before_year_closed (400 * j + 1))

fourth_century_leap : (j : ℕ) → is_leap (400 * j + 400) ≡ true
unfolding is_leap
fourth_century_leap j = ground arith

within_400_years-Lands :
    (tm : Tm) (j d n : ℕ)
    → d < 146097
    → tm.tm_year ≡ sub_ℕ (400 * j) 1900
    → days_before_year (400 * j + 1) + d ≡ n + 306
    → Lands n tm (within_400_years tm (pos d))
unfolding within_400_years
within_400_years-Lands tm j d n hd hy hn = elim (ℕ_discrete (d / 36524) 4) [
  | yes four ↦ rw four (
      leap_day-Lands tm (400 * j + 400) n _ (year-+ℤ tm.tm_year _ 400 _ hy refl)
        (fourth_century_leap j) (omega (arith, fourth_century j)))
  | no less ↦ rw (ne→==_false _ 4 less) (
      Lands-year tm _ n _ (
        within_century-Lands _ (4 * j + d / 36524) (d % 36524) n (omega arith)
          (year-+ℤ tm.tm_year _ (100 * (d / 36524)) _ hy (omega arith))
          (omega (arith, centuries_lem j (d / 36524)))))
]

-- Seconds from the 1st of January of the year 0 to that of 1970.
abbrev pub epoch_1970 : ℕ
epoch_1970 = 719528 * 86400

epoch_is_1970 : days_before_year 1970 ≡ 719528
epoch_is_1970 = omega (arith, days_before_year_closed 1970)

-- The `struct tm` of a date and time: months from 0, years from 1900, the 1st of January of the
-- year 0 a Saturday (so that 1970 begins on a Thursday); `tm_yday` is -1.
unfoldable pub tm_of : Civil → Tm
tm_of c = record {
  tm_sec = pos c.second;
  tm_min = pos c.minute;
  tm_hour = pos c.hour;
  tm_mday = pos c.day;
  tm_mon = pos (c.month - 1);
  tm_year = sub_ℕ c.year 1900;
  tm_wday = pos ((day_number c + 6) % 7);
  tm_yday = negsuc 0;
  tm_isdst = pos 0;
}

epoch_start : (a : ℕ) → days_before_year (400 * (a + 4) + 1) ≡ 584754 + 146097 * a
epoch_start a = omega (arith, days_before_year_closed (400 * (a + 4) + 1))

to_int-pos : (n : ℕ) → n < 2 ^ 31 → to_int (pos n) ≡ some (pos n)
to_int-pos n h = rw (lt→ltb n _ h)

-- The time of day and the weekday, before the date is written.
abbrev start_tm : ℕ → Tm
start_tm n = record {
  tm_sec = pos (n % 86400 % 60);
  tm_min = pos (n % 86400 / 60 % 60);
  tm_hour = pos (n % 86400 / 60 / 60);
  tm_mday = pos 0;
  tm_mon = pos 0;
  tm_year = sub_ℕ (1600 + 400 * ((n / 86400 + 135080) / 146097)) 1900;
  tm_wday = pos ((n / 86400 + 4) % 7);
  tm_yday = negsuc 0;
  tm_isdst = pos 0;
}

epoch_to_utc-start :
    (n : ℕ)
    → n < (2 ^ 31 - 135080) * 86400
    → epoch_to_utc (pos n) ≡ within_400_years (start_tm n) (pos ((n / 86400 + 135080) % 146097))
unfolding epoch_to_utc
epoch_to_utc-start n h = rw (
  to_int-pos (n / 86400) (omega arith),
  to_int-pos (n / 86400 + 4) (omega arith),
  to_int-pos (n / 86400 + 135080) (omega arith),
)

start-Lands :
    (n : ℕ)
    → Lands
        (719528 + n / 86400)
        (start_tm n)
        (within_400_years (start_tm n) (pos ((n / 86400 + 135080) % 146097)))
start-Lands n =
    let cycles = (n / 86400 + 135080) / 146097 in
    within_400_years-Lands (start_tm n) (cycles + 4) _ _ (omega arith)
      (ap (λ y. sub_ℕ y 1900) (omega arith)) (omega (arith, epoch_start cycles))

weekday_lem : (n : ℕ) → (n / 86400 + 4) % 7 ≡ (719528 + n / 86400 + 6) % 7
weekday_lem n = omega arith

Lands-tm_of :
    (n : ℕ) (result : Option Tm)
    → Lands (719528 + n / 86400) (start_tm n) result
    → (c : Civil) × IsValid c × (seconds c ≡ n + epoch_1970) × (result ≡ some (tm_of c))
unfolding tm_of seconds day_number
Lands-tm_of n result l =
    let day = l.day_is in
    let day_in = l.d_in in
    let mon_in = l.mon_in in
    (
      record {
        year = l.y;
        month = l.mon + 1;
        day = l.d;
        hour = n % 86400 / 60 / 60;
        minute = n % 86400 / 60 % 60;
        second = n % 86400 % 60;
      },
      record {
        month_in = (omega arith, omega arith);
        day_in = day_in;
        hour_in = omega arith;
        minute_in = omega arith;
        second_in = omega arith;
      },
      rw (add-sub_cancel, day) (omega arith),
      l.returns ∙ rw (add-sub_cancel, day) (rw (weekday_lem n)),
    )

-- For every number of seconds since 1970 below (2 ^ 31 - 135080) days, `epoch_to_utc` is defined,
-- and returns the fields of a valid Gregorian date and time that lies exactly that many seconds
-- after the 1st of January 1970.
pub epoch_to_utc-tm_of :
    (n : ℕ)
    → n < (2 ^ 31 - 135080) * 86400
    → (c : Civil) × IsValid c
      × (seconds c ≡ n + epoch_1970)
      × (epoch_to_utc (pos n) ≡ some (tm_of c))
epoch_to_utc-tm_of n h = rw (epoch_to_utc-start n h) (Lands-tm_of n _ (start-Lands n))
