-- ===== src/Date/Negative.antt =====
-- `epoch_to_utc` before 1970. C's `%` keeps the sign of the time, and so do the fields of
-- the time of day.
use fsdyn.Prelude.{
  ℕ, suc, ◌%◌, ◌<◌, ◌≡◌, ◌≢◌, refl, sym, ap, ◌∙◌, ◌>>=◌, Bool, true, false, if◌then◌else◌, Option,
  none, some, arith,
}
use mathlib.Core.Option.{some-injective}
use fsdyn.Prelude.Int.{◌+ℤ◌, ℤ, pos, negsuc, neg_ℕ, div_trunc, mod_trunc}
use fsdyn.Date.{Tm, within_year, within_century, within_400_years, epoch_to_utc, to_int}
use fsdyn.Date.Calendar.{Civil}
use fsdyn.Date.Correct.{tm_of}

-- The fields of the time of day.
abbrev Clock : Type 0
Clock = ℤ × ℤ × ℤ

abbrev clock : Tm → Clock
clock t = (t.tm_sec, t.tm_min, t.tm_hour)

-- If there is a result, its time of day is `k`.
data Shows (k : Clock) : Option Tm → Type 0 where
  undefined : Shows k none
  shown : {t : Tm} → clock t ≡ k → Shows k (some t)

Shows-if :
    {k : Clock} (b : Bool) {r r' : Option Tm}
    → Shows k r
    → Shows k r'
    → Shows k (if b then r else r')
Shows-if true h h' = h
Shows-if false h h' = h'

Shows-bind :
    {A : Type 0} {k : Clock} (o : Option A) {f : A → Option Tm}
    → ((a : A) → Shows k (f a))
    → Shows k (o >>= f)
Shows-bind none h = undefined
Shows-bind (some a) h = h a

within_year-Shows : (tm : Tm) (d : ℤ) → Shows (clock tm) (within_year tm d)
unfolding within_year
within_year-Shows tm d = Shows-bind _ (λ info. shown refl)

within_century-Shows : (tm : Tm) (d : ℤ) → Shows (clock tm) (within_century tm d)
unfolding within_century
within_century-Shows tm d = Shows-if _ (shown refl) (within_year-Shows _ _)

within_400_years-Shows : (tm : Tm) (d : ℤ) → Shows (clock tm) (within_400_years tm d)
unfolding within_400_years
within_400_years-Shows tm d = Shows-if _ (shown refl) (within_century-Shows _ _)

Shows-at : (tm : Tm) (d : ℤ) {k : Clock} → clock tm ≡ k → Shows k (within_400_years tm d)
Shows-at tm d e = rw e at (within_400_years-Shows tm d)

-- The time of day that is written for a time of -m seconds, taken within its day.
abbrev clock_before : ℕ → Clock
clock_before m =
    let minutes = div_trunc (neg_ℕ m) 60 in
    (mod_trunc (neg_ℕ m) 60, mod_trunc minutes 60, div_trunc minutes 60)

epoch_to_utc-Shows : (n : ℕ) → Shows (clock_before (suc n % 86400)) (epoch_to_utc (negsuc n))
unfolding epoch_to_utc
epoch_to_utc-Shows n = Shows-bind (to_int (div_trunc (negsuc n) 86400)) λ days.
    Shows-bind (to_int (days +ℤ pos 4))
      λ wday. Shows-bind (to_int (days +ℤ pos 135080)) λ days'. Shows-at _ _ refl

-- Some field of the time of day is negative.
clock_before-ne : (m h mi s : ℕ) → 0 < m → ◌≢◌ {A = Clock} (clock_before m) (pos s, pos mi, pos h)
clock_before-ne m h mi s p e = ground arith

Shows-some : {k : Clock} {t : Tm} {r : Option Tm} → Shows k r → r ≡ some t → clock t ≡ k
Shows-some undefined e = cc
Shows-some (shown h) e = ap clock (sym (some-injective _ _ e)) ∙ h

-- For a time before 1970 that is not a whole number of days from it, what `epoch_to_utc` returns,
-- if anything, is not the `struct tm` of a valid date and time, nor of any other date and time
-- whose fields are numbers from 0.
pub epoch_to_utc-negative :
    (n : ℕ) (c : Civil) → suc n % 86400 ≢ 0 → epoch_to_utc (negsuc n) ≢ some (tm_of c)
unfolding tm_of
epoch_to_utc-negative n c h e =
    clock_before-ne (suc n % 86400) c.hour c.minute c.second (omega arith)
      (sym (Shows-some (epoch_to_utc-Shows n) e))
