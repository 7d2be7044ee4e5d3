-- ===== src/Ical/IsoDate.antt =====
-- `toIsoDate` and `addOneDay` of apps/api/src/channel-sync/ical-parse.ts. What `Intl` knows of a time
-- zone is a parameter: the year, month and day that a moment has there. A moment is its seconds from
-- midnight of day 0 of Ical.Date on.
use sambung.Common.{zero, suc}
use sambung.Common.{
  length, suc, ℕ, ◌+◌, ◌-◌, ◌*◌, ◌/◌, ◌%◌, Bool, true, false, not, ◌&&◌, ◌||◌, Option, none, some,
  [], ◌∷◌, ◌++◌, ltb, leb, ◌==◌, if◌then◌else◌,
}
use sambung.Ical.Text.{Text, is_digit, is_space, trim_start, two_digits, four_digits}
use sambung.Ical.Date.{cycle, make_day, date_exists, civil, Civil}

-- What `formatToParts` gives of the year, the month and the day.
pub record Parts : Type 0 where
  pub year : Text
  pub month : Text
  pub day : Text

pub record ZoneContext : Type 0 where
  pub time_zone : Text
  pub format_parts : ℕ → Parts

-- `padStart(width, '0')`, with `width` rounds left.
abbrev pub pad_zeros : ℕ → Text → Text
pad_zeros zero t = t
pad_zeros (suc n) t = if leb (suc n) (length t) then t else b'0' ∷ pad_zeros n t

abbrev pub dashed : Text → Text → Text → Text
dashed y m d = y ++ (b'-' ∷ (m ++ (b'-' ∷ d)))

unfoldable pub to_local_date : ZoneContext → ℕ → Text
to_local_date zone instant =
    let p = zone.format_parts instant in dashed (pad_zeros 4 p.year) p.month p.day

-- `/^\d{4}-\d{2}-\d{2}$/`
unfoldable pub is_iso : Text → Bool
is_iso (a ∷ b ∷ c ∷ d ∷ s ∷ e ∷ f ∷ t ∷ g ∷ h ∷ []) =
    is_digit a
    && is_digit b
    && is_digit c
    && is_digit d
    && s == b'-'
    && is_digit e
    && is_digit f
    && t == b'-'
    && is_digit g
    && is_digit h
is_iso _ = false

-- The hours, minutes and seconds.
pub record Time : Type 0 where
  pub hours : ℕ
  pub minutes : ℕ
  pub seconds : ℕ

abbrev only_spaces : Text → Bool
only_spaces [] = true
only_spaces (c ∷ cs) = is_space c && only_spaces cs

-- `/^\s*\d{8}T(\d{2})(\d{2})(\d{2})Z\s*$/i` after the eight digits
unfoldable pub utc_time : Text → Option Time
utc_time (t ∷ a ∷ b ∷ c ∷ d ∷ e ∷ f ∷ z ∷ rest) =
    if (t == b'T' || t == b't')
      && is_digit a
      && is_digit b
      && is_digit c
      && is_digit d
      && is_digit e
      && is_digit f
      && (z == b'Z' || z == b'z')
      && only_spaces rest
    then some
        (record { hours = two_digits a b; minutes = two_digits c d; seconds = two_digits e f })
    else none
utc_time _ = none

abbrev pub iso_if : Text → Option Text
iso_if local = if is_iso local then some local else none

abbrev pub too_late : Time → Bool
too_late t = ltb 23 t.hours || ltb 59 t.minutes || ltb 60 t.seconds

abbrev pub moment : ℕ → Time → ℕ
moment day t = day * 86400 + t.hours * 3600 + t.minutes * 60 + t.seconds

-- The date part as it is, or the local date of the moment.
unfoldable pub localized : ZoneContext → Text → ℕ → Option Time → Option Text
unfolding to_local_date is_iso
localized zone iso day none = some iso
localized zone iso day (some t) =
    if too_late t then none else iso_if (to_local_date zone (moment day t))

abbrev pub eight_digits : ℕ → ℕ → ℕ → ℕ → ℕ → ℕ → ℕ → ℕ → Bool
eight_digits a b c d e f g h =
    is_digit a
    && is_digit b
    && is_digit c
    && is_digit d
    && is_digit e
    && is_digit f
    && is_digit g
    && is_digit h

-- The value from its first digit on.
unfoldable pub read_date : ZoneContext → Text → Option Text
unfolding localized utc_time
read_date zone (a ∷ b ∷ c ∷ d ∷ e ∷ f ∷ g ∷ h ∷ rest) =
    if not (eight_digits a b c d e f g h)
    then none
    else if not (date_exists (four_digits a b c d) (two_digits e f) (two_digits g h))
    then none
    else localized zone (dashed (a ∷ b ∷ c ∷ d ∷ []) (e ∷ f ∷ []) (g ∷ h ∷ []))
        (make_day (four_digits a b c d) (two_digits e f) (two_digits g h)) (utc_time rest)
read_date zone _ = none

unfoldable pub to_iso_date : Text → ZoneContext → Option Text
unfolding read_date
to_iso_date value zone = read_date zone (trim_start value)

-- Four digits of a year, or six after a sign: `toISOString().slice(0, 10)`.
abbrev digit_char : ℕ → ℕ
digit_char n = b'0' + n % 10

abbrev pub show_two : ℕ → Text
show_two n = digit_char (n / 10) ∷ digit_char n ∷ []

abbrev pub show_four : ℕ → Text
show_four n = show_two (n / 100) ++ show_two n

abbrev pub show_date : Civil → Text
show_date c =
    if ltb 9999 (c.year - cycle)
    then b'+'
      ∷ (show_two ((c.year - cycle) / 10000)
          ++ (show_four (c.year - cycle) ++ (b'-' ∷ (show_two c.month))))
    else dashed (show_four (c.year - cycle)) (show_two c.month) (show_two c.day)

-- `Date.UTC` takes a year below 100 for one of the twentieth century.
abbrev pub utc_year : ℕ → ℕ
utc_year y = if leb y 99 then 1900 + y else y

abbrev next_date : Text → Text
next_date (a ∷ b ∷ c ∷ d ∷ s ∷ e ∷ f ∷ t ∷ g ∷ h ∷ []) =
    show_date
      (civil (make_day (utc_year (four_digits a b c d)) (two_digits e f) (two_digits g h + 1)))
next_date t = t

-- `none` is the exception of `toISOString` on what is no date.
unfoldable pub add_one_day : Text → Option Text
add_one_day iso = if is_iso iso then some (next_date iso) else none
