-- ===== src/Tests/Ical.antt =====
-- Runs of the calendar text, out and in.
use sambung.Ical.RoundTrip.{parse_calendar-build_calendar}
use sambung.Ical.NeverRaises.{parse_calendar-ne-raised}
use sambung.Ical.Folding.{unfold_lines-print_lines}
use sambung.Ical.Octets.{Within, fold_line-Within}
use sambung.Ical.Exported.{IsDate}
use sambung.Ical.NextDay.{day_in, add_one_day_next}
use sambung.Ical.Calendar.{is_real, date_exists_iff}
use sambung.Ical.Date.{date_exists}
use sambung.Common.{ℕ, ◌≡◌, refl, true, some, [], ◌∷◌, false, ◌≢◌, ◌+◌, arith, ◌∙◌}
use sambung.Ical.Text.{Text, codes}
use sambung.Ical.IsoDate.{Parts, to_iso_date, add_one_day, is_iso}
use sambung.Ical.Build.{CalendarEvent, build_calendar, fold_line, format_date_time_utc, print_lines}
use sambung.Ical.Lines.{unfold_lines, split_lines}
use sambung.Ical.Parse.{ParseResult, parsed, parse_calendar}

-- A zone where every moment falls on one day.
abbrev jakarta : ℕ → Parts
jakarta instant = record { year = codes "2026"; month = codes "08"; day = codes "02" }

abbrev busy : CalendarEvent
busy = record { uid = codes "7f-1"; start = codes "2026-08-01"; end = codes "2026-08-04" }

abbrev producer : Text
producer = codes "-//Sambung, the long name of a producer; so long that it is folded over//EN"

abbrev stamp : Text
stamp = codes "2026-07-30T10:20:30.123Z"

abbrev feed : Text
feed =
    codes
      "BEGIN:VCALENDAR\r\nBEGIN:VEVENT\r\nUID: x1 \r\nDTSTART;TZID=\"Asia/Makassar\":20260801T163000\r\nDTEND:20260801T163000Z\r\nEND:VEVENT\r\nend:vcalendar\r\n"

feed_parsed :
    parse_calendar (λ zone. some jakarta) feed (codes "Asia/Jakarta")
    ≡ parsed
        (record { uid = codes "x1"; start = codes "2026-08-01"; end = codes "2026-08-02" } ∷ [])
        (codes "Asia/Makassar" ∷ [])
unfolding parse_calendar sambung.Ical.Parse.has_line sambung.Ical.Lines.split_lines
    sambung.Ical.Lines.drop_folds sambung.Ical.Lines.drop_crlf_folds sambung.Ical.Parse.on_lines
    sambung.Ical.Parse.on_line sambung.Ical.Parse.to_event to_iso_date sambung.Ical.Date.date_exists
    sambung.Ical.Date.civil sambung.Ical.Date.make_day sambung.Ical.Date.year_of
    sambung.Ical.Date.days_before_month sambung.Ical.Date.month_in sambung.Ical.Date.day_of_year
feed_parsed = refl

next_day : add_one_day (codes "2026-12-31") ≡ some (codes "2027-01-01")
unfolding add_one_day sambung.Ical.IsoDate.is_iso sambung.Ical.Date.civil sambung.Ical.Date.make_day
    sambung.Ical.Date.year_of sambung.Ical.Date.days_before_month sambung.Ical.Date.month_in
    sambung.Ical.Date.day_of_year
next_day = refl

-- A year of two digits.
next_day_50 : add_one_day (codes "0050-01-01") ≡ some (codes "1950-01-02")
unfolding add_one_day sambung.Ical.IsoDate.is_iso sambung.Ical.Date.civil sambung.Ical.Date.make_day
    sambung.Ical.Date.year_of sambung.Ical.Date.days_before_month sambung.Ical.Date.month_in
    sambung.Ical.Date.day_of_year
next_day_50 = refl

august : (d : ℕ) → is_real 2026 8 d ≡ true → date_exists 2026 8 d ≡ true
august d h = date_exists_iff 2026 8 d ∙ h

-- The long PRODID is folded.
parse_calendar-build_calendar_example :
    (body : Text) × (build_calendar producer stamp (busy ∷ []) ≡ some body)
    × (parse_calendar (λ zone. some jakarta) body (codes "Asia/Jakarta")
        ≡ parsed (record { uid = busy.uid; start = busy.start; end = busy.end } ∷ []) [])
unfolding format_date_time_utc is_iso date_exists is_real sambung.Ical.Calendar.days_in_month
parse_calendar-build_calendar_example =
    parse_calendar-build_calendar (λ zone. some jakarta) producer stamp (codes "Asia/Jakarta")
      (busy ∷ []) refl refl
      (
        record {
          token = (refl, (refl, (refl, (refl, tt))));
          named = refl;
          start_date = (refl, august 1 refl);
          end_date = (refl, august 4 refl);
          stay = refl;
        },
        tt,
      )

unfold_lines-print_lines_example :
    unfold_lines (print_lines (producer ∷ codes "END:VCALENDAR" ∷ []))
    ≡ producer ∷ codes "END:VCALENDAR" ∷ [] ∷ []
unfold_lines-print_lines_example =
    unfold_lines-print_lines (producer ∷ codes "END:VCALENDAR" ∷ [])
      ((refl, refl), ((refl, refl), tt))

fold_line-Within_example : Within (split_lines false (fold_line producer))
fold_line-Within_example = fold_line-Within producer refl

parse_calendar-ne-raised_example :
    parse_calendar (λ zone. some jakarta) feed (codes "Asia/Jakarta") ≢ ParseResult.raised
parse_calendar-ne-raised_example =
    parse_calendar-ne-raised (λ zone. some jakarta) feed (codes "Asia/Jakarta")

date_exists_iff_example : date_exists 2026 2 29 ≡ is_real 2026 2 29
date_exists_iff_example = date_exists_iff 2026 2 29

add_one_day_next_example :
    (next : Text) × (add_one_day (codes "2026-12-31") ≡ some next)
    × IsDate next
    × (day_in next ≡ day_in (codes "2026-12-31") + 1)
unfolding is_iso date_exists sambung.Ical.Date.civil sambung.Ical.Date.year_of
    sambung.Ical.Date.make_day sambung.Ical.Date.days_before_month sambung.Ical.Date.month_in
    sambung.Ical.Date.day_of_year
add_one_day_next_example =
    add_one_day_next (codes "2026-12-31") (refl, refl) (omega arith) (omega arith)
