-- ===== src/Calendar/Round.antt =====
-- An instant lies in the month of its date.
use prelude.Base.{
  ℕ, zero, suc, ◌+◌, ◌-◌, ◌*◌, ◌/◌, ◌%◌, ◌≤◌, ◌<◌, ◌≡◌, refl, ap, sym, ◌∙◌, arith, ltb, Bool-cases,
  inl, inr, ◌==◌,
}
use prelude.Calendar.{
  ms_per_day, days_in_year, days_in_month, YearDay, MonthDay, find_year, find_month, date_of,
  days_before_year, days_before_month, utc_first_of_month, Date,
}

-- A day of a year that the loop reaches, `n` days after the start of the year 1970 + k.
record FoundYear (k n : ℕ) (found : YearDay) : Type 0 where
  pub index : ℕ
  pub is_year : found.year ≡ 1970 + index
  pub counts : days_before_year k + n ≡ days_before_year index + found.day
  pub in_year : found.day < days_in_year found.year

year_positive : (y : ℕ) → 365 ≤ days_in_year y
year_positive y = ground arith

find_year-FoundYear :
    (fuel y k n : ℕ) → y ≡ 1970 + k → n ≤ fuel → FoundYear k n (find_year fuel y n)
unfolding find_year days_before_year
find_year-FoundYear zero y k n e h = record {
  index = k;
  is_year = e;
  counts = refl;
  in_year = omega (arith, year_positive y);
}
find_year-FoundYear (suc fuel) y k n e h = elim (Bool-cases (ltb n (days_in_year y))) [
  | inl t ↦ rw t (record { index = k; is_year = e; counts = refl; in_year = ground arith })
  | inr t ↦
      let long = year_positive y in
      let past : days_in_year y ≤ n = ground arith in
      let more =
        find_year-FoundYear fuel (y + 1) (suc k) (n - days_in_year y) (omega arith) (omega arith) in
      let here : days_in_year (1970 + k) ≡ days_in_year y = ap days_in_year (sym e) in
      rw t (record {
        index = more.index;
        is_year = more.is_year;
        counts = omega (arith, here, more.counts);
        in_year = more.in_year;
      })
]

-- A day of a month that the loop reaches, `n` days after the start of month `m`.
record FoundMonth (y m n : ℕ) (found : MonthDay) : Type 0 where
  pub counts : days_before_month y m + n ≡ days_before_month y found.month + found.day
  pub in_month : found.day < days_in_month y found.month
  pub is_month : found.month < 12

find_month-FoundMonth :
    (fuel y m n : ℕ)
    → m + fuel ≡ 11
    → days_before_month y m + n < days_before_month y 12
    → FoundMonth y m n (find_month fuel y m n)
unfolding find_month days_before_month
find_month-FoundMonth zero y m n e h = record {
  counts = refl;
  in_month = last (omega arith);
  is_month = omega arith;
}
  where
    last : m ≡ 11 → n < days_in_month y m
    last e = let h' = rw e at h in rw e (omega arith)
find_month-FoundMonth (suc fuel) y m n e h = elim (Bool-cases (ltb n (days_in_month y m))) [
  | inl t ↦ rw t (record { counts = refl; in_month = ground arith; is_month = omega arith })
  | inr t ↦
      let past : days_in_month y m ≤ n = ground arith in
      let next : days_before_month y (m + 1) ≡ days_before_month y m + days_in_month y m = step m in
      let more =
        find_month-FoundMonth fuel y (m + 1) (n - days_in_month y m) (omega arith) (omega arith) in
      rw t (record {
        counts = omega (arith, next, more.counts);
        in_month = more.in_month;
        is_month = more.is_month;
      })
]
  where
    step : (m : ℕ) → days_before_month y (m + 1) ≡ days_before_month y m + days_in_month y m
    step m = let e : m + 1 ≡ suc m = omega arith in rw e refl

year_of_months : (y : ℕ) → days_before_month y 12 ≡ days_in_year y
unfolding days_before_month
year_of_months y = ground arith

-- The month of an instant begins at or before it, ends after it, and is as long as its days.
pub record MonthAround (now start end : ℕ) (date : Date) : Type 0 where
  pub begun : start ≤ now
  pub not_over : now < end
  pub spans : end ≡ start + ms_per_day * days_in_month date.year date.month

utc_first_lem :
    (i m : ℕ)
    → m < 12
    → utc_first_of_month (1970 + i) m
      ≡ ms_per_day * (days_before_year i + days_before_month (1970 + i) m)
unfolding utc_first_of_month
utc_first_lem i m h =
    let none : m / 12 ≡ 0 = omega arith in
    let same : m % 12 ≡ m = omega arith in
    let year : 1970 + i + 0 ≡ 1970 + i = omega arith in
    let index : 1970 + i - 1970 ≡ i = omega arith in rw (none, same, year, index) refl

-- The first of the next month, in the next year after the last one.
utc_next_lem :
    (i m : ℕ)
    → m < 12
    → utc_first_of_month (1970 + i) (m + 1)
      ≡ ms_per_day
        * (days_before_year i + days_before_month (1970 + i) m + days_in_month (1970 + i) m)
unfolding utc_first_of_month days_before_year days_before_month
utc_next_lem i m h = elim (Bool-cases (m == 11)) [
  | inl e ↦
      let last : m ≡ 11 = ground arith in
      let year : 1970 + i + 1 - 1970 ≡ suc i = omega arith in
      rw last (rw year (omega (arith, year_of_months (1970 + i))))
  | inr e ↦
      let inside : m + 1 < 12 = ground arith in
      let next : m + 1 ≡ suc m = omega arith in
      utc_first_lem i (m + 1) inside ∙ rw next (omega arith)
]

month_around :
    (now i y m day : ℕ)
    → y ≡ 1970 + i
    → m < 12
    → now / ms_per_day ≡ days_before_year i + (days_before_month y m + day)
    → day < days_in_month y m
    → MonthAround now
        (utc_first_of_month y m)
        (utc_first_of_month y (m + 1))
        (record { year = y; month = m; day = day })
month_around now i y m day e h counts inside =
    let first : utc_first_of_month y m ≡ ms_per_day * (days_before_year i + days_before_month y m) =
      rw e (utc_first_lem i m h) in
    let next : utc_first_of_month y (m + 1)
        ≡ ms_per_day * (days_before_year i + days_before_month y m + days_in_month y m) =
      rw e (utc_next_lem i m h) in
    record { begun = omega arith; not_over = omega arith; spans = omega arith }

-- Every instant lies in the month of its date.
pub date_of-MonthAround :
    (now : ℕ)
    → let date = date_of now in
      MonthAround now
        (utc_first_of_month date.year date.month)
        (utc_first_of_month date.year (date.month + 1))
        date
unfolding date_of days_before_year days_before_month
date_of-MonthAround now =
    let n = now / ms_per_day in
    let y = find_year n 1970 n in
    let found = find_year-FoundYear n 1970 0 n refl (omega arith) in
    let inside : 0 + y.day < days_before_month y.year 12 =
      omega (arith, year_of_months y.year, found.in_year) in
    let month = find_month-FoundMonth 11 y.year 0 y.day refl inside in
    month_around now found.index y.year (find_month 11 y.year 0 y.day).month
      (find_month 11 y.year 0 y.day).day found.is_year month.is_month
      (omega (arith, found.counts, month.counts)) month.in_month
