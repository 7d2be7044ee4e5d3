-- ===== src/Ical/Date.antt =====
-- What apps/api/src/channel-sync/ical-parse.ts uses of JavaScript's `Date`, on days. A day is its
-- number from 1 January of the year -400 on, and a year is counted from -400 too, so that the year 0
-- with a month 0 is a number: the calendar repeats after 400 years.
use sambung.Common.{ℕ, ◌+◌, ◌-◌, ◌*◌, ◌/◌, ◌%◌, Bool, ◌&&◌, ltb, ◌==◌, if◌then◌else◌}

abbrev pub cycle : ℕ
cycle = 400

-- `DayFromYear`
unfoldable pub days_before_year : ℕ → ℕ
days_before_year y = 365 * y + (y + 3) / 4 + (y + 399) / 400 - (y + 99) / 100

unfoldable pub leap : ℕ → ℕ
leap y = if y % 4 == 0 then (if y % 100 == 0 then (if y % 400 == 0 then 1 else 0) else 1) else 0

-- The days of the year before month `m`, which counts from 0.
unfoldable pub days_before_month : ℕ → ℕ → ℕ
unfolding leap
days_before_month y m = if ltb m 2 then 31 * m else 59 + leap y + (153 * (m - 2) + 2) / 5

-- `MakeDay(year, month - 1, day)`: a month beyond the year's, or a day beyond the month's, runs on.
unfoldable pub make_day : ℕ → ℕ → ℕ → ℕ
make_day year month day =
    let months = (year + cycle) * 12 + month - 1 in
    days_before_year (months / 12) + days_before_month (months / 12) (months % 12) + day - 1

-- `YearFromTime`: the year whose days hold day `n`.
unfoldable pub year_of : ℕ → ℕ
unfolding days_before_year
year_of n =
    let guess = n * 400 / 146097 in
    if ltb n (days_before_year guess)
    then guess - 1
    else if ltb n (days_before_year (guess + 1))
    then guess
    else guess + 1

unfoldable pub day_of_year : ℕ → ℕ
day_of_year n = n - days_before_year (year_of n)

-- `MonthFromTime`, on the day of year `y`.
unfoldable pub month_in : ℕ → ℕ → ℕ
unfolding leap
month_in y d =
    if ltb d 31 then 0 else if ltb d (59 + leap y) then 1 else (5 * (d - 59 - leap y) + 2) / 153 + 2

pub record Civil : Type 0 where
  pub year : ℕ
  pub month : ℕ
  pub day : ℕ

-- The year (from -400), the month (from 1) and the day of the month.
unfoldable pub civil : ℕ → Civil
civil n = record {
  year = year_of n;
  month = month_in (year_of n) (day_of_year n) + 1;
  day = day_of_year n - days_before_month (year_of n) (month_in (year_of n) (day_of_year n)) + 1;
}

-- The round trip of `toIsoDate`: the date exists if `Date` gives its fields back.
unfoldable pub date_exists : ℕ → ℕ → ℕ → Bool
date_exists year month day =
    let c = civil (make_day year month day) in
    c.year == year + cycle && c.month == month && c.day == day
