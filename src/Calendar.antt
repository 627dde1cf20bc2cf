-- ===== src/Calendar.antt =====
-- The UTC calendar of the language's `Date` on instants from 1970 on, in milliseconds: the parts of an
-- instant, `Date.UTC` at a first of a month, and the date of `toISOString` up to the year 9999. The
-- loops run on fuel: a count of days is enough for the years in it, twelve for the months of a year.
pub mod Round
use prelude.Base.{
  ℕ, zero, suc, ◌+◌, ◌-◌, ◌*◌, ◌/◌, ◌%◌, Bool, not, ◌&&◌, ◌||◌, if◌then◌else◌, ltb, ◌==◌,
}

abbrev pub ms_per_day : ℕ
ms_per_day = 86400000

abbrev pub is_leap : ℕ → Bool
is_leap y = y % 4 == 0 && (not (y % 100 == 0) || y % 400 == 0)

abbrev pub days_in_year : ℕ → ℕ
days_in_year y = if is_leap y then 366 else 365

-- A month of a year is 0 to 11.
abbrev pub days_in_month : ℕ → ℕ → ℕ
days_in_month y m =
    if m == 1
    then (if is_leap y then 29 else 28)
    else if m == 3 || m == 5 || m == 8 || m == 10
    then 30
    else 31

-- A year with a day in it, and a month of a year with a day in it, counted from 0.
pub record YearDay : Type 0 where
  pub year : ℕ
  pub day : ℕ

pub record MonthDay : Type 0 where
  pub month : ℕ
  pub day : ℕ

unfoldable pub find_year : ℕ → ℕ → ℕ → YearDay
find_year zero y n = record { year = y; day = n }
find_year (suc fuel) y n =
    let later = find_year fuel (y + 1) (n - days_in_year y) in
    if ltb n (days_in_year y) then record { year = y; day = n } else later

unfoldable pub find_month : ℕ → ℕ → ℕ → ℕ → MonthDay
find_month zero y m n = record { month = m; day = n }
find_month (suc fuel) y m n =
    let later = find_month fuel y (m + 1) (n - days_in_month y m) in
    if ltb n (days_in_month y m) then record { month = m; day = n } else later

pub record Date : Type 0 where
  pub year : ℕ
  pub month : ℕ
  pub day : ℕ

abbrev pub date_in : YearDay → Date
date_in y =
    let found = find_month 11 y.year 0 y.day in
    record { year = y.year; month = found.month; day = found.day }

-- `getUTCFullYear`, `getUTCMonth` and `getUTCDate` (less one) of an instant.
unfoldable pub date_of : ℕ → Date
date_of now = date_in (find_year (now / ms_per_day) 1970 (now / ms_per_day))

-- The days before a year, from 1970, and before a month in its year.
unfoldable pub days_before_year : ℕ → ℕ
days_before_year zero = 0
days_before_year (suc k) = days_before_year k + days_in_year (1970 + k)

unfoldable pub days_before_month : ℕ → ℕ → ℕ
days_before_month y zero = 0
days_before_month y (suc m) = days_before_month y m + days_in_month y m

-- `Date.UTC(year, month, 1)`, where a month past the last one is in the next year.
unfoldable pub utc_first_of_month : ℕ → ℕ → ℕ
utc_first_of_month year month =
    let y = year + month / 12 in
    ms_per_day * (days_before_year (y - 1970) + days_before_month y (month % 12))
