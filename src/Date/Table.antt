-- ===== src/Date/Table.antt =====
-- The table YDAY_INFO of src/date.c.
use fsdyn.Prelude.{ℕ, List, [], ◌∷◌, ◌++◌}

-- `yday_info_t`; month 0 is January, days of the month count from 1.
pub record YdayInfo : Type 0 where
  pub year_offset : ℕ
  pub month : ℕ
  pub mday : ℕ

abbrev row : ℕ → ℕ → ℕ → YdayInfo
row o m d = record { year_offset = o; month = m; mday = d }

rows_from_march : List YdayInfo
rows_from_march =
    row 0 2 1
    ∷ row 0 2 2
    ∷ row 0 2 3
    ∷ row 0 2 4
    ∷ row 0 2 5
    ∷ row 0 2 6
    ∷ row 0 2 7
    ∷ row 0 2 8
    ∷ row 0 2 9
    ∷ row 0 2 10
    ∷ row 0 2 11
    ∷ row 0 2 12
    ∷ row 0 2 13
    ∷ row 0 2 14
    ∷ row 0 2 15
    ∷ row 0 2 16
    ∷ row 0 2 17
    ∷ row 0 2 18
    ∷ row 0 2 19
    ∷ row 0 2 20
    ∷ row 0 2 21
    ∷ row 0 2 22
    ∷ row 0 2 23
    ∷ row 0 2 24
    ∷ row 0 2 25
    ∷ row 0 2 26
    ∷ row 0 2 27
    ∷ row 0 2 28
    ∷ row 0 2 29
    ∷ row 0 2 30
    ∷ row 0 2 31
    ∷ row 0 3 1
    ∷ row 0 3 2
    ∷ row 0 3 3
    ∷ row 0 3 4
    ∷ row 0 3 5
    ∷ row 0 3 6
    ∷ row 0 3 7
    ∷ row 0 3 8
    ∷ row 0 3 9
    ∷ row 0 3 10
    ∷ row 0 3 11
    ∷ row 0 3 12
    ∷ row 0 3 13
    ∷ row 0 3 14
    ∷ row 0 3 15
    ∷ row 0 3 16
    ∷ row 0 3 17
    ∷ row 0 3 18
    ∷ row 0 3 19
    ∷ row 0 3 20
    ∷ row 0 3 21
    ∷ row 0 3 22
    ∷ row 0 3 23
    ∷ row 0 3 24
    ∷ row 0 3 25
    ∷ row 0 3 26
    ∷ row 0 3 27
    ∷ row 0 3 28
    ∷ row 0 3 29
    ∷ row 0 3 30
    ∷ row 0 4 1
    ∷ row 0 4 2
    ∷ row 0 4 3
    ∷ row 0 4 4
    ∷ row 0 4 5
    ∷ row 0 4 6
    ∷ row 0 4 7
    ∷ row 0 4 8
    ∷ row 0 4 9
    ∷ row 0 4 10
    ∷ row 0 4 11
    ∷ row 0 4 12
    ∷ row 0 4 13
    ∷ row 0 4 14
    ∷ row 0 4 15
    ∷ row 0 4 16
    ∷ row 0 4 17
    ∷ row 0 4 18
    ∷ row 0 4 19
    ∷ row 0 4 20
    ∷ row 0 4 21
    ∷ row 0 4 22
    ∷ row 0 4 23
    ∷ row 0 4 24
    ∷ row 0 4 25
    ∷ row 0 4 26
    ∷ row 0 4 27
    ∷ row 0 4 28
    ∷ row 0 4 29
    ∷ row 0 4 30
    ∷ row 0 4 31
    ∷ []

rows_from_june : List YdayInfo
rows_from_june =
    row 0 5 1
    ∷ row 0 5 2
    ∷ row 0 5 3
    ∷ row 0 5 4
    ∷ row 0 5 5
    ∷ row 0 5 6
    ∷ row 0 5 7
    ∷ row 0 5 8
    ∷ row 0 5 9
    ∷ row 0 5 10
    ∷ row 0 5 11
    ∷ row 0 5 12
    ∷ row 0 5 13
    ∷ row 0 5 14
    ∷ row 0 5 15
    ∷ row 0 5 16
    ∷ row 0 5 17
    ∷ row 0 5 18
    ∷ row 0 5 19
    ∷ row 0 5 20
    ∷ row 0 5 21
    ∷ row 0 5 22
    ∷ row 0 5 23
    ∷ row 0 5 24
    ∷ row 0 5 25
    ∷ row 0 5 26
    ∷ row 0 5 27
    ∷ row 0 5 28
    ∷ row 0 5 29
    ∷ row 0 5 30
    ∷ row 0 6 1
    ∷ row 0 6 2
    ∷ row 0 6 3
    ∷ row 0 6 4
    ∷ row 0 6 5
    ∷ row 0 6 6
    ∷ row 0 6 7
    ∷ row 0 6 8
    ∷ row 0 6 9
    ∷ row 0 6 10
    ∷ row 0 6 11
    ∷ row 0 6 12
    ∷ row 0 6 13
    ∷ row 0 6 14
    ∷ row 0 6 15
    ∷ row 0 6 16
    ∷ row 0 6 17
    ∷ row 0 6 18
    ∷ row 0 6 19
    ∷ row 0 6 20
    ∷ row 0 6 21
    ∷ row 0 6 22
    ∷ row 0 6 23
    ∷ row 0 6 24
    ∷ row 0 6 25
    ∷ row 0 6 26
    ∷ row 0 6 27
    ∷ row 0 6 28
    ∷ row 0 6 29
    ∷ row 0 6 30
    ∷ row 0 6 31
    ∷ row 0 7 1
    ∷ row 0 7 2
    ∷ row 0 7 3
    ∷ row 0 7 4
    ∷ row 0 7 5
    ∷ row 0 7 6
    ∷ row 0 7 7
    ∷ row 0 7 8
    ∷ row 0 7 9
    ∷ row 0 7 10
    ∷ row 0 7 11
    ∷ row 0 7 12
    ∷ row 0 7 13
    ∷ row 0 7 14
    ∷ row 0 7 15
    ∷ row 0 7 16
    ∷ row 0 7 17
    ∷ row 0 7 18
    ∷ row 0 7 19
    ∷ row 0 7 20
    ∷ row 0 7 21
    ∷ row 0 7 22
    ∷ row 0 7 23
    ∷ row 0 7 24
    ∷ row 0 7 25
    ∷ row 0 7 26
    ∷ row 0 7 27
    ∷ row 0 7 28
    ∷ row 0 7 29
    ∷ row 0 7 30
    ∷ row 0 7 31
    ∷ []

rows_from_september : List YdayInfo
rows_from_september =
    row 0 8 1
    ∷ row 0 8 2
    ∷ row 0 8 3
    ∷ row 0 8 4
    ∷ row 0 8 5
    ∷ row 0 8 6
    ∷ row 0 8 7
    ∷ row 0 8 8
    ∷ row 0 8 9
    ∷ row 0 8 10
    ∷ row 0 8 11
    ∷ row 0 8 12
    ∷ row 0 8 13
    ∷ row 0 8 14
    ∷ row 0 8 15
    ∷ row 0 8 16
    ∷ row 0 8 17
    ∷ row 0 8 18
    ∷ row 0 8 19
    ∷ row 0 8 20
    ∷ row 0 8 21
    ∷ row 0 8 22
    ∷ row 0 8 23
    ∷ row 0 8 24
    ∷ row 0 8 25
    ∷ row 0 8 26
    ∷ row 0 8 27
    ∷ row 0 8 28
    ∷ row 0 8 29
    ∷ row 0 8 30
    ∷ row 0 9 1
    ∷ row 0 9 2
    ∷ row 0 9 3
    ∷ row 0 9 4
    ∷ row 0 9 5
    ∷ row 0 9 6
    ∷ row 0 9 7
    ∷ row 0 9 8
    ∷ row 0 9 9
    ∷ row 0 9 10
    ∷ row 0 9 11
    ∷ row 0 9 12
    ∷ row 0 9 13
    ∷ row 0 9 14
    ∷ row 0 9 15
    ∷ row 0 9 16
    ∷ row 0 9 17
    ∷ row 0 9 18
    ∷ row 0 9 19
    ∷ row 0 9 20
    ∷ row 0 9 21
    ∷ row 0 9 22
    ∷ row 0 9 23
    ∷ row 0 9 24
    ∷ row 0 9 25
    ∷ row 0 9 26
    ∷ row 0 9 27
    ∷ row 0 9 28
    ∷ row 0 9 29
    ∷ row 0 9 30
    ∷ row 0 9 31
    ∷ row 0 10 1
    ∷ row 0 10 2
    ∷ row 0 10 3
    ∷ row 0 10 4
    ∷ row 0 10 5
    ∷ row 0 10 6
    ∷ row 0 10 7
    ∷ row 0 10 8
    ∷ row 0 10 9
    ∷ row 0 10 10
    ∷ row 0 10 11
    ∷ row 0 10 12
    ∷ row 0 10 13
    ∷ row 0 10 14
    ∷ row 0 10 15
    ∷ row 0 10 16
    ∷ row 0 10 17
    ∷ row 0 10 18
    ∷ row 0 10 19
    ∷ row 0 10 20
    ∷ row 0 10 21
    ∷ row 0 10 22
    ∷ row 0 10 23
    ∷ row 0 10 24
    ∷ row 0 10 25
    ∷ row 0 10 26
    ∷ row 0 10 27
    ∷ row 0 10 28
    ∷ row 0 10 29
    ∷ row 0 10 30
    ∷ []

rows_from_december : List YdayInfo
rows_from_december =
    row 0 11 1
    ∷ row 0 11 2
    ∷ row 0 11 3
    ∷ row 0 11 4
    ∷ row 0 11 5
    ∷ row 0 11 6
    ∷ row 0 11 7
    ∷ row 0 11 8
    ∷ row 0 11 9
    ∷ row 0 11 10
    ∷ row 0 11 11
    ∷ row 0 11 12
    ∷ row 0 11 13
    ∷ row 0 11 14
    ∷ row 0 11 15
    ∷ row 0 11 16
    ∷ row 0 11 17
    ∷ row 0 11 18
    ∷ row 0 11 19
    ∷ row 0 11 20
    ∷ row 0 11 21
    ∷ row 0 11 22
    ∷ row 0 11 23
    ∷ row 0 11 24
    ∷ row 0 11 25
    ∷ row 0 11 26
    ∷ row 0 11 27
    ∷ row 0 11 28
    ∷ row 0 11 29
    ∷ row 0 11 30
    ∷ row 0 11 31
    ∷ row 1 0 1
    ∷ row 1 0 2
    ∷ row 1 0 3
    ∷ row 1 0 4
    ∷ row 1 0 5
    ∷ row 1 0 6
    ∷ row 1 0 7
    ∷ row 1 0 8
    ∷ row 1 0 9
    ∷ row 1 0 10
    ∷ row 1 0 11
    ∷ row 1 0 12
    ∷ row 1 0 13
    ∷ row 1 0 14
    ∷ row 1 0 15
    ∷ row 1 0 16
    ∷ row 1 0 17
    ∷ row 1 0 18
    ∷ row 1 0 19
    ∷ row 1 0 20
    ∷ row 1 0 21
    ∷ row 1 0 22
    ∷ row 1 0 23
    ∷ row 1 0 24
    ∷ row 1 0 25
    ∷ row 1 0 26
    ∷ row 1 0 27
    ∷ row 1 0 28
    ∷ row 1 0 29
    ∷ row 1 0 30
    ∷ row 1 0 31
    ∷ row 1 1 1
    ∷ row 1 1 2
    ∷ row 1 1 3
    ∷ row 1 1 4
    ∷ row 1 1 5
    ∷ row 1 1 6
    ∷ row 1 1 7
    ∷ row 1 1 8
    ∷ row 1 1 9
    ∷ row 1 1 10
    ∷ row 1 1 11
    ∷ row 1 1 12
    ∷ row 1 1 13
    ∷ row 1 1 14
    ∷ row 1 1 15
    ∷ row 1 1 16
    ∷ row 1 1 17
    ∷ row 1 1 18
    ∷ row 1 1 19
    ∷ row 1 1 20
    ∷ row 1 1 21
    ∷ row 1 1 22
    ∷ row 1 1 23
    ∷ row 1 1 24
    ∷ row 1 1 25
    ∷ row 1 1 26
    ∷ row 1 1 27
    ∷ row 1 1 28
    ∷ row 1 1 29
    ∷ []

-- The days of a year that begins on the 1st of March.
unfoldable pub yday_info : List YdayInfo
unfolding rows_from_march rows_from_june rows_from_september rows_from_december
yday_info = rows_from_march ++ rows_from_june ++ rows_from_september ++ rows_from_december
