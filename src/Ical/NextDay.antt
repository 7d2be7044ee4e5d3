-- ===== src/Ical/NextDay.antt =====
-- `addOneDay` gives the next day (apps/api/src/channel-sync/ical-parse.ts).
use sambung.Common.{
  ℕ, ◌+◌, ◌-◌, ◌/◌, ◌%◌, ◌≤◌, ◌<◌, true, false, some, [], ◌∷◌, ltb, ◌≡◌, refl, ◌∙◌, arith,
}
use sambung.Ical.Text.{Text, four_digits, two_digits}
use sambung.Ical.Date.{cycle, make_day, civil, Civil, date_exists}
use sambung.Ical.IsoDate.{is_iso, add_one_day, show_two, show_four, show_date, utc_year, dashed}
use sambung.Ical.Exported.{IsDate}
use sambung.Ical.Calendar.{
  civil_real, real_exists, exists_fields, civil_next_year, days_in_month_le, civil-is_real,
  make_day-civil,
}

abbrev pub year_in : Text → ℕ
year_in (a ∷ b ∷ c ∷ d ∷ rest) = four_digits a b c d
year_in _ = 0

-- The number of the day of a date.
unfoldable pub day_in : Text → ℕ
day_in (a ∷ b ∷ c ∷ d ∷ s ∷ e ∷ f ∷ t ∷ g ∷ h ∷ []) =
    make_day (four_digits a b c d) (two_digits e f) (two_digits g h)
day_in _ = 0

two_digits-show : (n : ℕ) → n < 100 → two_digits (b'0' + n / 10 % 10) (b'0' + n % 10) ≡ n
two_digits-show n h = omega arith

four_digits-show :
    (n : ℕ)
    → n < 10000
    → four_digits
        (b'0' + n / 100 / 10 % 10)
        (b'0' + n / 100 % 10)
        (b'0' + n / 10 % 10)
        (b'0' + n % 10)
      ≡ n
four_digits-show n h = omega arith

make_day-next : (y m d : ℕ) → 1 ≤ d → make_day y m (d + 1) ≡ make_day y m d + 1
unfolding make_day
make_day-next y m d h = omega arith

date_exists_at :
    (y m d y' m' d' : ℕ)
    → y' ≡ y
    → m' ≡ m
    → d' ≡ d
    → date_exists y m d ≡ true
    → date_exists y' m' d' ≡ true
date_exists_at y m d y' m' d' p q r h = rw (p, q, r) h

make_day_at : (y m d y' m' d' : ℕ) → y' ≡ y → m' ≡ m → d' ≡ d → make_day y' m' d' ≡ make_day y m d
make_day_at y m d y' m' d' p q r = rw (p, q, r) refl

-- What is shown of a date reads as the date.
show-IsDate :
    (y m d : ℕ)
    → y < 10000
    → m < 100
    → d < 100
    → date_exists y m d ≡ true
    → IsDate (dashed (show_four y) (show_two m) (show_two d))
      × (day_in (dashed (show_four y) (show_two m) (show_two d)) ≡ make_day y m d)
unfolding is_iso day_in
show-IsDate y m d hy hm hd real = (
  (
    ground arith,
    date_exists_at y m d _ _ _ (four_digits-show y hy) (two_digits-show m hm) (two_digits-show d hd)
        real,
  ),
  make_day_at y m d _ _ _ (four_digits-show y hy) (two_digits-show m hm) (two_digits-show d hd),
)

utc_year-late : (y : ℕ) → 100 ≤ y → utc_year y ≡ y
utc_year-late y h = ground arith

show_date-short :
    (c : Civil)
    → c.year - cycle < 10000
    → show_date c ≡ dashed (show_four (c.year - cycle)) (show_two c.month) (show_two c.day)
show_date-short c h = rw (not_late (c.year - cycle) h) refl
  where
    not_late : (y : ℕ) → y < 10000 → ltb 9999 y ≡ false
    not_late y k = ground arith

next_fields :
    (y m d : ℕ)
    → 100 ≤ y
    → y ≤ 9998
    → date_exists y m d ≡ true
    → IsDate (show_date (civil (make_day (utc_year y) m (d + 1))))
      × (day_in (show_date (civil (make_day (utc_year y) m (d + 1)))) ≡ make_day y m d + 1)
next_fields y m d lo hi exists =
    let n : ℕ = make_day y m d in
    let (same, same_month, same_day) = exists_fields y m d exists in
    let (least, most) = civil_next_year n in
    let from : cycle ≤ (civil (n + 1)).year = omega arith in
    let to : (civil (n + 1)).year - cycle < 10000 = omega arith in
    let (late, first, begun, ended) = civil_real (n + 1) in
    let first_day : 1 ≤ d = omega (arith, (civil_real n).2) in
    let (date, shown) =
      show-IsDate ((civil (n + 1)).year - cycle) (civil (n + 1)).month (civil (n + 1)).day to
        (omega arith) (omega (arith, days_in_month_le (civil (n + 1)).year (civil (n + 1)).month))
        (real_exists _ _ _ (civil-is_real (n + 1) from)) in
    rw (utc_year-late y lo, make_day-next y m d first_day, show_date-short (civil (n + 1)) to)
      (date, shown ∙ make_day-civil (n + 1) from)

-- For a calendar date from the year 100 to the year 9998, `addOneDay` gives a calendar date, and
-- it is the next day.
pub add_one_day_next :
    (t : Text)
    → IsDate t
    → 100 ≤ year_in t
    → year_in t ≤ 9998
    → (next : Text) × (add_one_day t ≡ some next) × IsDate next × (day_in next ≡ day_in t + 1)
unfolding add_one_day day_in
add_one_day_next (a ∷ b ∷ c ∷ d ∷ s ∷ e ∷ f ∷ t ∷ g ∷ h ∷ []) (iso, exists) lo hi =
    let (date, day) =
      next_fields (four_digits a b c d) (two_digits e f) (two_digits g h) lo hi exists in
    (_, rw iso refl, date, day)
add_one_day_next _ h lo hi = absurd h
