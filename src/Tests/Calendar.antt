-- ===== src/Tests/Calendar.antt =====
-- A month of the calendar.
use sambung.Common.{
  ◌+◌, ◌≡◌, refl, String, Bool, true, false, ◌&&◌, ◌==◌, leb, ltb, none, some, List, [], ◌∷◌, map,
  any, select, length, arith, str_eq,
}
use sambung.Common.Int.{pos, ◌-ℤ◌}
use sambung.Stay.{count_nights}
use sambung.Calendar.{
  Window, bar_span, clip_column, CalendarProperty, CalendarUnit, CalendarBooking, build_calendar,
  is_visible, calendar_row,
}
use sambung.Calendar.Bars.{covers, bar_span-night}
use sambung.Calendar.Rows.{is_drawn, build_calendar-any}

abbrev month : Window
month = record { from = 100; to = 131 }

bar_test :
    (bar_span month 95 103
      ≡ some
          (record { start = pos 0; end = pos 3; continues_left = true; continues_right = false }))
    × (bar_span month 95 100 ≡ none)
    × (bar_span month 131 133 ≡ none)
unfolding bar_span count_nights clip_column ◌-ℤ◌
bar_test = (refl, refl, refl)

abbrev villas : List CalendarProperty
villas =
    record { id = 2; name = "b" }
    ∷ record { id = 1; name = "a" }
    ∷ record { id = 3; name = "c" }
    ∷ []

abbrev rooms : List CalendarUnit
rooms =
    record { id = 20; property_id = 2; name = "y"; archived = true }
    ∷ record { id = 21; property_id = 2; name = "x"; archived = true }
    ∷ record { id = 10; property_id = 1; name = "z"; archived = false }
    ∷ []

abbrev stays : List CalendarBooking
stays =
    record { id = 5; unit_id = 20 }
    ∷ record { id = 6; unit_id = 99 }
    ∷ record { id = 7; unit_id = 20 }
    ∷ []

abbrev before : String → String → Bool
before a b = str_eq a "a"

-- The archived unit with bookings stays, the one without is dropped, and so is the villa without rows.
rows_test :
    (map (λ g. g.property.id) (build_calendar before villas rooms stays none) ≡ 1 ∷ 2 ∷ [])
    × (any
          (λ g. any (λ r. r.unit.id == 20 && length r.bookings == 2) g.rows)
          (build_calendar before villas rooms stays none)
        ≡ true)
    × (any (λ g. any (λ r. r.unit.id == 21) g.rows) (build_calendar before villas rooms stays none)
        ≡ false)
unfolding build_calendar sambung.Calendar.push_row
rows_test = (refl, refl, refl)

bar_span-night_example : covers (bar_span month 95 103) 2 ≡ (leb 95 (100 + 2) && ltb (100 + 2) 103)
bar_span-night_example = bar_span-night month 95 103 2 (omega arith)

build_calendar-any_example :
    any
      (λ g. g.property.id == 2 && any (λ r. r.unit.id == 20) g.rows)
      (build_calendar before villas rooms stays (some 2))
    ≡ any
        (λ r.
          is_visible (some 2) r
          && (r.id == 2
              && any
                  (λ u.
                    u.property_id == r.id
                    && (is_drawn stays u
                        && (calendar_row u (select (λ b. b.unit_id == u.id) stays)).unit.id == 20))
                  rooms))
        villas
build_calendar-any_example =
    build_calendar-any before (λ p. p.id == 2) (λ r. r.unit.id == 20) villas rooms stays (some 2)
