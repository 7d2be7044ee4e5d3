-- ===== src/Ical/Calendar.antt =====
-- `Date` on days is the Gregorian calendar (apps/api/src/channel-sync/ical-parse.ts).
use sambung.Common.{
  ◌||◌, ◌==◌, if◌then◌else◌, ℕ, ◌+◌, ◌≤◌, ◌<◌, ◌≡◌, arith, Bool, ◌&&◌, true, false, inl, inr,
  Bool-cases, leb, sym, ◌∙◌, ◌-◌, ◌*◌, ◌/◌, ◌%◌,
}
use sambung.Ical.Date.{
  month_in, days_before_month, days_before_year, leap, year_of, make_day, civil, date_exists, cycle,
  day_of_year,
}

days_before_year-suc : (y : ℕ) → days_before_year (y + 1) ≡ days_before_year y + 365 + leap y
unfolding days_before_year leap
days_before_year-suc y = ground arith

-- The year's days, on both sides of any day.
year_of_bounds :
    (n : ℕ) → (days_before_year (year_of n) ≤ n) × (n < days_before_year (year_of n + 1))
unfolding days_before_year year_of
year_of_bounds n = ground arith

days_before_year_mono : (a b : ℕ) → a ≤ b → days_before_year a ≤ days_before_year b
unfolding days_before_year
days_before_year_mono a b h = omega arith

year_of_unique : (n y : ℕ) → days_before_year y ≤ n → n < days_before_year (y + 1) → year_of n ≡ y
year_of_unique n y lo hi = ground (
  arith,
  year_of_bounds n,
  days_before_year_mono (year_of n + 1) y,
  days_before_year_mono (y + 1) (year_of n),
)

-- The months as they are.
unfoldable pub days_in_month : ℕ → ℕ → ℕ
unfolding leap
days_in_month y m =
    if m == 2 then 28 + leap y else if m == 4 || m == 6 || m == 9 || m == 11 then 30 else 31

leap_le : (y : ℕ) → leap y ≤ 1
unfolding leap
leap_le y = ground arith

record IsMonthOf (y d m : ℕ) : Type 0 where
  within : m < 12
  begins : days_before_month y m ≤ d
  ends : d < days_before_month y m + days_in_month y (m + 1)

month_in-IsMonthOf : (y d : ℕ) → d < 365 + leap y → IsMonthOf y d (month_in y d)
unfolding month_in days_before_month days_in_month
month_in-IsMonthOf y d h = ground (arith, leap_le y)

month_in_unique :
    (y m k : ℕ) → m < 12 → k < days_in_month y (m + 1) → month_in y (days_before_month y m + k) ≡ m
unfolding month_in days_before_month days_in_month
month_in_unique y m k h lt = ground (arith, leap_le y)

-- A date of the Gregorian calendar.
unfoldable pub is_real : ℕ → ℕ → ℕ → Bool
is_real year month day =
    leb 1 month && leb month 12 && leb 1 day && leb day (days_in_month (year + cycle) month)

real_parts :
    (year month day : ℕ)
    → is_real year month day ≡ true
    → (1 ≤ month) × (month ≤ 12) × (1 ≤ day) × (day ≤ days_in_month (year + cycle) month)
unfolding is_real
real_parts year month day h = ground arith

-- The day of a real date.
pub make_day_real :
    (year month day : ℕ)
    → is_real year month day ≡ true
    → make_day year month day
      ≡ days_before_year (year + cycle) + days_before_month (year + cycle) (month - 1) + (day - 1)
unfolding make_day
make_day_real year month day h =
    let (from, to, first, last) = real_parts year month day h in
    let months : ((year + cycle) * 12 + month - 1) / 12 ≡ year + cycle = omega arith in
    let rest : ((year + cycle) * 12 + month - 1) % 12 ≡ month - 1 = omega arith in
    rw (months, rest) (omega arith)

day_in_year :
    (y m d : ℕ) → m < 12 → d < days_in_month y (m + 1) → days_before_month y m + d < 365 + leap y
unfolding days_before_month days_in_month
day_in_year y m d h k = ground (arith, leap_le y)

-- The fields of the day of year `y`, month `m` and day `d`, the last two from 0.
pub civil_fields :
    (y m d : ℕ)
    → m < 12
    → d < days_in_month y (m + 1)
    → civil (days_before_year y + days_before_month y m + d)
      ≡ record { year = y; month = m + 1; day = d + 1 }
unfolding civil day_of_year
civil_fields y m d h k =
    let same : year_of (days_before_year y + days_before_month y m + d) ≡ y =
      year_of_unique (days_before_year y + days_before_month y m + d) y (omega arith)
        (omega (arith, day_in_year y m d h k, days_before_year-suc y)) in
    let rest : days_before_year y + days_before_month y m + d - days_before_year y
        ≡ days_before_month y m + d =
      omega arith in
    rw (same, rest, month_in_unique y m d h k) (ground arith)

pub civil_real :
    (n : ℕ)
    → (civil n).month ≤ 12
      × (1 ≤ (civil n).month)
      × (1 ≤ (civil n).day)
      × ((civil n).day ≤ days_in_month (civil n).year (civil n).month)
unfolding civil day_of_year
civil_real n =
    let m =
      month_in-IsMonthOf (year_of n) (n - days_before_year (year_of n))
        (ground (arith, year_of_bounds n, days_before_year-suc (year_of n))) in
    ground arith

pub exists_fields :
    (year month day : ℕ)
    → date_exists year month day ≡ true
    → ((civil (make_day year month day)).year ≡ year + cycle)
      × ((civil (make_day year month day)).month ≡ month)
      × ((civil (make_day year month day)).day ≡ day)
unfolding date_exists
exists_fields year month day h = ground arith

exists_real :
    (year month day : ℕ) → date_exists year month day ≡ true → is_real year month day ≡ true
unfolding is_real
exists_real year month day h =
    let n = make_day year month day in
    let (same_year, same_month, same_day) = exists_fields year month day h in
    let real = civil_real n in rw (← same_year, ← same_month, ← same_day) (ground arith)

pub real_exists :
    (year month day : ℕ) → is_real year month day ≡ true → date_exists year month day ≡ true
unfolding date_exists
real_exists year month day h =
    let (from, to, first, last) = real_parts year month day h in
    let back : (month - 1) + 1 ≡ month = omega arith in
    rw
      (
        make_day_real year month day h,
        civil_fields (year + cycle) (month - 1) (day - 1) (omega arith) (rw back (omega arith)),
      )
      (ground arith)

-- The round trip by which a date is validated accepts exactly the dates of the Gregorian calendar:
-- a month from 1 to 12 and a day from 1 to the length of that month in that year.
pub date_exists_iff : (year month day : ℕ) → date_exists year month day ≡ is_real year month day
date_exists_iff year month day = elim (Bool-cases (is_real year month day)) [
  | inl real ↦ real_exists year month day real ∙ sym real
  | inr not_real ↦ elim (Bool-cases (date_exists year month day)) [
    | inl y ↦ (let r : true ≡ false = sym (exists_real year month day y) ∙ not_real in cc)
    | inr n ↦ n ∙ sym not_real
  ]
]

-- The fields of a day, put together.
civil_day :
    (n : ℕ)
    → days_before_year (civil n).year
        + days_before_month (civil n).year ((civil n).month - 1)
        + ((civil n).day - 1)
      ≡ n
unfolding civil day_of_year
civil_day n =
    let d : ℕ = n - days_before_year (year_of n) in
    let m =
      month_in-IsMonthOf (year_of n) d
        (ground (arith, year_of_bounds n, days_before_year-suc (year_of n))) in
    let begins = m.begins in
    let back : month_in (year_of n) d + 1 - 1 ≡ month_in (year_of n) d = omega arith in
    rw back (omega (arith, year_of_bounds n))

module _ (n : ℕ) (h : cycle ≤ (civil n).year) where
  pub civil-is_real : is_real ((civil n).year - cycle) (civil n).month (civil n).day ≡ true
  unfolding is_real
  civil-is_real =
      let real = civil_real n in
      let back : ((civil n).year - cycle) + cycle ≡ (civil n).year = omega arith in
      rw back (ground arith)

  -- The fields of a day are the day again.
  pub make_day-civil : make_day ((civil n).year - cycle) (civil n).month (civil n).day ≡ n
  make_day-civil =
      let back : ((civil n).year - cycle) + cycle ≡ (civil n).year = omega arith in
      make_day_real ((civil n).year - cycle) (civil n).month (civil n).day civil-is_real
      ∙ rw back (civil_day n)

-- The year of the next day is the same or the next.
pub civil_next_year :
    (n : ℕ) → ((civil n).year ≤ (civil (n + 1)).year) × ((civil (n + 1)).year ≤ (civil n).year + 1)
unfolding civil
civil_next_year n = ground (
  arith,
  year_of_bounds n,
  year_of_bounds (n + 1),
  days_before_year_mono (year_of (n + 1) + 1) (year_of n),
  days_before_year_mono (year_of n + 1 + 1) (year_of (n + 1)),
  days_before_year-suc (year_of n + 1),
)

pub days_in_month_le : (y m : ℕ) → days_in_month y m ≤ 31
unfolding days_in_month
days_in_month_le y m = ground (arith, leap_le y)
