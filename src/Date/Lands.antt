-- ===== src/Date/Lands.antt =====
-- The innermost part of `epoch_to_utc`: the table of days of a year that begins in March. `Lands`
-- says which date is written.
use fsdyn.Prelude.{
  ℕ, ◌+◌, ◌-◌, ◌≤◌, ◌<◌, ◌≡◌, ◌≢◌, refl, ap, inl, inr, Bool, true, false, ◌&&◌, ◌==◌, ltb, leb,
  if◌then◌else◌, Option, none, some, get_elem?, Option-cases, arith,
}
use native.Mathlib.Decide.{ℕ_discrete}
use fsdyn.Prelude.Int.{ℤ, pos, sub_ℕ, ◌+ℤ◌}
use fsdyn.Prelude.Tables.{checked, checked-entry}
use fsdyn.Date.{Tm, YdayInfo, yday_info, within_year}
use fsdyn.Date.Calendar.{
  is_leap, days_in_month, days_before_year, days_to_month_end, days_before_year-suc,
}

-- What a row of the table says, in a year whose February has 28 or 29 days.
row_good : Bool → ℕ → YdayInfo → Bool
unfolding days_in_month days_to_month_end
row_good leap i r =
    ltb r.month 12
    && leb 1 r.mday
    && leb r.mday (days_in_month leap (r.month + 1))
    && (if r.year_offset == 0
        then days_to_month_end leap r.month + r.mday == (if leap then 61 else 60) + i
        else r.year_offset == 1 && days_to_month_end leap r.month + r.mday + 305 == i)

row_check : Bool → ℕ → Bool
unfolding row_good
row_check leap i = elim (get_elem? yday_info i) [ none ↦ false | some r ↦ row_good leap i r ]

rows_good : (leap : Bool) → checked (row_check leap) 365 0 ≡ true
unfolding row_check yday_info checked
rows_good true = refl
rows_good false = refl

record RowFacts (leap : Bool) (i : ℕ) (r : YdayInfo) : Type 0 where
  mon_in : r.month < 12
  d_in : (1 ≤ r.mday) × (r.mday ≤ days_in_month leap (r.month + 1))
  same_year :
      r.year_offset ≡ 0 → days_to_month_end leap r.month + r.mday ≡ (if leap then 61 else 60) + i
  next_year :
      r.year_offset ≢ 0 → (r.year_offset ≡ 1) × (days_to_month_end leap r.month + r.mday + 305 ≡ i)

row_good-RowFacts :
    (leap : Bool) (i : ℕ) (r : YdayInfo) → row_good leap i r ≡ true → RowFacts leap i r
unfolding row_good
row_good-RowFacts leap i r h = record {
  mon_in = ground arith;
  d_in = (ground arith, ground arith);
  same_year = ground arith;
  next_year = λ ne. (ground arith, ground arith);
}

row_at :
    (i : ℕ)
    → i < 365
    → (r : YdayInfo) × (get_elem? yday_info i ≡ some r) × ((leap : Bool) → RowFacts leap i r)
unfolding row_check
row_at i h = elim (Option-cases (get_elem? yday_info i)) [
  | inl e ↦ absurd (
      ground (
        arith,
        checked-entry (row_check true) 365 0 i (rows_good true) (omega arith) (omega arith),
      ))
  | inr (r, e) ↦ (
    r,
    e,
    λ leap. row_good-RowFacts leap i r (
        ground (
          arith,
          checked-entry (row_check leap) 365 0 i (rows_good leap) (omega arith) (omega arith),
        )),
  )
]

-- The date fields written are those of the day with number `n`; `mon` counts from 0.
pub record Lands (n : ℕ) (tm : Tm) (result : Option Tm) : Type 0 where
  pub y : ℕ
  pub mon : ℕ
  pub d : ℕ
  pub returns :
      result ≡ some (record tm { tm_year = sub_ℕ y 1900; tm_mon = pos mon; tm_mday = pos d })
  pub mon_in : mon < 12
  pub d_in : (1 ≤ d) × (d ≤ days_in_month (is_leap y) (mon + 1))
  pub day_is : days_before_year y + days_to_month_end (is_leap y) mon + (d - 1) ≡ n

sub_ℕ-+ℤ : (a b k : ℕ) → sub_ℕ a b +ℤ pos k ≡ sub_ℕ (a + k) b
sub_ℕ-+ℤ a b k = ground arith

pub year-+ℤ : (z : ℤ) (y k y' : ℕ) → z ≡ sub_ℕ y 1900 → y + k ≡ y' → z +ℤ pos k ≡ sub_ℕ y' 1900
year-+ℤ z y k y' e h = rw (e, sub_ℕ-+ℤ, h)

pub within_year-Lands :
    (tm : Tm) (y i n : ℕ)
    → i < 365
    → tm.tm_year ≡ sub_ℕ y 1900
    → days_before_year (y + 1) + i ≡ n + 306
    → Lands n tm (within_year tm (pos i))
unfolding within_year
within_year-Lands tm y i n hi hy hn =
    let (r, e, facts) = row_at i hi in
    let written =
      λ (z : ℤ). some (record tm { tm_year = z; tm_mon = pos r.month; tm_mday = pos r.mday }) in
    let f = facts (is_leap y) in
    let f' = facts (is_leap (y + 1)) in
    elim (ℕ_discrete r.year_offset 0) [
      | yes same ↦ record {
        y = y;
        mon = r.month;
        d = r.mday;
        returns = rw e (ap written (year-+ℤ tm.tm_year y r.year_offset y hy (omega arith)));
        mon_in = f.mon_in;
        d_in = f.d_in;
        day_is = let g = f.same_year same in ground (arith, days_before_year-suc y);
      }
      | no later ↦
          let g = f'.next_year later in
          record {
            y = y + 1;
            mon = r.month;
            d = r.mday;
            returns =
                rw e
                  (ap written (year-+ℤ tm.tm_year y r.year_offset (y + 1) hy (omega (arith, g))));
            mon_in = f'.mon_in;
            d_in = f'.d_in;
            day_is = omega (arith, g);
          }
    ]
