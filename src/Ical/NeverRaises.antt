-- ===== src/Ical/NeverRaises.antt =====
-- `parseCalendar` never throws (apps/api/src/channel-sync/ical-parse.ts).
use sambung.Common.{
  ℕ, Bool, true, false, not, ◌||◌, Option, none, some, List, [], ◌∷◌, if◌then◌else◌, ◌≡◌, ◌≢◌, refl,
  arith, Bool-cases, inl, inr,
}
use sambung.Ical.Text.{Text, trim, four_digits, two_digits, codes, text_le, trim_start}
use sambung.Ical.Date.{date_exists, make_day}
use sambung.Ical.IsoDate.{
  ZoneContext, Time, is_iso, dashed, localized, read_date, to_iso_date, add_one_day, utc_time,
  to_local_date, iso_if, too_late, moment, eight_digits, Parts,
}
use sambung.Ical.Lines.{ContentLine, split_line, unfold_lines}
use sambung.Ical.Parse.{
  Built, thrown, Fields, to_event, Progress, on_line, on_lines, ParseResult, raised, parse_calendar,
  on_parsed, push_event, close_event, identified, started, ended, ranged, event, skipped, is_vevent,
  named, date_of, result_of, parse_lines, in_zone, has_line,
}

-- A text that is a date is one of the shape YYYY-MM-DD.
IsIso : Option Text → Type 0
IsIso none = Unit
IsIso (some t) = is_iso t ≡ true

IsIso-unless : (b : Bool) (x : Option Text) → (b ≡ false → IsIso x) → IsIso (if b then none else x)
unfolding IsIso
IsIso-unless true x h = tt
IsIso-unless false x h = h refl

iso_if-IsIso : (t : Text) → IsIso (iso_if t)
unfolding IsIso
iso_if-IsIso t = elim (Bool-cases (is_iso t)) [ inl y ↦ rw y y | inr n ↦ rw n tt ]

localized-IsIso :
    (zone : ZoneContext) (iso : Text) (day : ℕ) (o : Option Time)
    → is_iso iso ≡ true
    → IsIso (localized zone iso day o)
unfolding localized
localized-IsIso zone iso day none h = unfold IsIso in h
localized-IsIso zone iso day (some t) h =
    IsIso-unless (too_late t) (iso_if (to_local_date zone (moment day t)))
      (λ _. iso_if-IsIso (to_local_date zone (moment day t)))

read_date-IsIso : (zone : ZoneContext) (v : Text) → IsIso (read_date zone v)
unfolding read_date IsIso
read_date-IsIso zone [] = tt
read_date-IsIso zone (a ∷ []) = tt
read_date-IsIso zone (a ∷ b ∷ []) = tt
read_date-IsIso zone (a ∷ b ∷ c ∷ []) = tt
read_date-IsIso zone (a ∷ b ∷ c ∷ d ∷ []) = tt
read_date-IsIso zone (a ∷ b ∷ c ∷ d ∷ e ∷ []) = tt
read_date-IsIso zone (a ∷ b ∷ c ∷ d ∷ e ∷ f ∷ []) = tt
read_date-IsIso zone (a ∷ b ∷ c ∷ d ∷ e ∷ f ∷ g ∷ []) = tt
read_date-IsIso zone (a ∷ b ∷ c ∷ d ∷ e ∷ f ∷ g ∷ h ∷ rest) =
    IsIso-unless (not (eight_digits a b c d e f g h)) (if not exists then none else local)
      (λ digits.
        IsIso-unless (not exists) local
          (λ _. localized-IsIso zone iso day (utc_time rest) (iso_of digits)))
  where
    iso : Text
    iso = dashed (a ∷ b ∷ c ∷ d ∷ []) (e ∷ f ∷ []) (g ∷ h ∷ [])

    exists : Bool
    exists = date_exists (four_digits a b c d) (two_digits e f) (two_digits g h)

    day : ℕ
    day = make_day (four_digits a b c d) (two_digits e f) (two_digits g h)

    local : Option Text
    local = localized zone iso day (utc_time rest)

    iso_of : not (eight_digits a b c d e f g h) ≡ false → is_iso iso ≡ true
    iso_of digits = unfold is_iso in ground arith

-- What was built is no exception.
abbrev IsSafe : Built → Type 0
IsSafe thrown = ⊥
IsSafe _ = Unit

ranged-IsSafe : (uid start : Text) (o : Option Text) → IsSafe (ranged uid start o)
ranged-IsSafe uid start none = tt
ranged-IsSafe uid start (some end) = elim (Bool-cases (text_le end start)) [
  | inl y ↦ rw y tt
  | inr n ↦ rw n tt
]

ended-IsSafe :
    (zone : ZoneContext) (uid start : Text) (o : Option Text)
    → is_iso start ≡ true
    → IsSafe (ended zone uid start o)
ended-IsSafe zone uid start none h = unfold add_one_day in rw h (ranged-IsSafe uid start (some _))
ended-IsSafe zone uid start (some raw) h = ranged-IsSafe uid start (to_iso_date raw zone)

started-IsSafe :
    (zone : ZoneContext) (fields : Fields) (uid : Text) (o : Option Text)
    → IsIso o
    → IsSafe (started zone fields uid o)
started-IsSafe zone fields uid none h = tt
started-IsSafe zone fields uid (some start) h =
    ended-IsSafe zone uid start fields.dtend (unfold IsIso in h)

date_of-IsIso : (zone : ZoneContext) (o : Option Text) → IsIso (date_of zone o)
unfolding to_iso_date
date_of-IsIso zone none = unfold IsIso in tt
date_of-IsIso zone (some raw) = read_date-IsIso zone (trim_start raw)

identified-IsSafe :
    (zone : ZoneContext) (fields : Fields) (uid : Text) → IsSafe (identified zone fields uid)
identified-IsSafe zone fields [] = tt
identified-IsSafe zone fields (c ∷ cs) =
    started-IsSafe zone fields (c ∷ cs) _ (date_of-IsIso zone fields.dtstart)

named-IsSafe :
    (zone : ZoneContext) (fields : Fields) (o : Option Text) → IsSafe (named zone fields o)
named-IsSafe zone fields none = tt
named-IsSafe zone fields (some raw) = identified-IsSafe zone fields (trim raw)

-- The rounds of the loop go on.
abbrev GoesOn : Option Progress → Type 0
GoesOn none = ⊥
GoesOn (some p) = Unit

push_event-GoesOn : (p : Progress) (b : Built) → IsSafe b → GoesOn (push_event p b)
push_event-GoesOn p (event e) h = tt
push_event-GoesOn p skipped h = tt
push_event-GoesOn p thrown h = absurd h

close_event-GoesOn :
    (zone : ZoneContext) (p : Progress) (o : Option Fields) → GoesOn (close_event zone p o)
unfolding to_event
close_event-GoesOn zone p none = tt
close_event-GoesOn zone p (some f) = push_event-GoesOn p _ (named-IsSafe zone f f.uid)

on_parsed-GoesOn :
    (zone : ZoneContext) (p : Progress) (o : Option ContentLine) → GoesOn (on_parsed zone p o)
on_parsed-GoesOn zone p none = tt
on_parsed-GoesOn zone p (some line) = elim (Bool-cases (is_vevent line (codes "BEGIN"))) [
  | inl y ↦ rw y tt
  | inr n ↦ rw n (elim (Bool-cases (is_vevent line (codes "END"))) [
    | inl y ↦ rw y (close_event-GoesOn zone p p.current)
    | inr m ↦ rw m tt
  ])
]

on_lines-GoesOn :
    (zone : ZoneContext) (o : Option Progress) (lines : List Text)
    → GoesOn o
    → GoesOn (on_lines zone o lines)
unfolding on_lines on_line
on_lines-GoesOn zone none lines h = absurd h
on_lines-GoesOn zone (some p) [] h = tt
on_lines-GoesOn zone (some p) (line ∷ lines) h =
    on_lines-GoesOn zone (on_line zone p line) lines (on_parsed-GoesOn zone p (split_line line))

result_of-ne-raised : (o : Option Progress) → GoesOn o → result_of o ≢ raised
result_of-ne-raised none h e = absurd h
result_of-ne-raised (some p) h e = cc

parse_lines-ne-raised : (zone : ZoneContext) (lines : List Text) → parse_lines zone lines ≢ raised
parse_lines-ne-raised zone lines e =
    elim (Bool-cases
      (not (has_line "BEGIN:VCALENDAR" lines) || not (has_line "END:VCALENDAR" lines))) [
        | inl y ↦ (let e' : ParseResult.not_terminated ≡ raised = rw y at e in cc)
        | inr n ↦ result_of-ne-raised _ (on_lines-GoesOn zone (some _) lines tt) (rw n at e)
      ]

in_zone-ne-raised :
    (body time_zone : Text) (o : Option (ℕ → Parts)) → in_zone body time_zone o ≢ raised
in_zone-ne-raised body time_zone none e = cc
in_zone-ne-raised body time_zone (some parts) e =
    parse_lines-ne-raised (record { time_zone = time_zone; format_parts = parts })
      (unfold_lines body) e

-- The parser never throws: for any body, any zone and whatever the platform answers of the zone,
-- the result is a list of events or one of the two refusals.
pub parse_calendar-ne-raised :
    (formats : Text → Option (ℕ → Parts)) (body time_zone : Text)
    → parse_calendar formats body time_zone ≢ raised
unfolding parse_calendar
parse_calendar-ne-raised formats body time_zone =
    in_zone-ne-raised body time_zone (formats time_zone)
