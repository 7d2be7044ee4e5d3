-- ===== src/Ical/RoundTrip.antt =====
-- An exported calendar, parsed (apps/api/src/channel-sync/ical.ts, ical-parse.ts).
use sambung.Common.{
  ℕ, Bool, true, false, ◌||◌, Option, none, some, List, [], ◌∷◌, ◌++◌, any, All, ◌≡◌, refl, ap, ◌∙◌,
  arith, map, non_empty,
}
use mathlib.Core.List.{append-nil, append_assoc}
use sambung.Ical.Text.{Text, codes, text_le, text_eq, upper, trim}
use sambung.Ical.IsoDate.{ZoneContext, Parts}
use sambung.Ical.Lines.{unfold_lines, tzid_param}
use sambung.Ical.Build.{
  CalendarEvent, escape_text, format_date_time_utc, event_summary, event_lines, header,
  events_lines, print_lines, build_calendar,
}
use sambung.Ical.Parse.{
  Fields, ImportedEvent, event, to_event, Progress, on_line, on_lines, has_line, parsed,
  parse_calendar, push_event, parse_lines, result_of,
}
use sambung.Ical.Folding.{is_plain, IsLine, unfold_lines-print_lines}
use sambung.Ical.Exported.{
  IsDate, Printed, IsDate-Printed, IsToken, escape_text-IsToken, escape_text-plain, trim-IsToken,
}

-- An event with a uuid or the like, and a stay of at least a night.
pub record IsExportable (e : CalendarEvent) : Type 0 where
  pub token : IsToken e.uid
  pub named : non_empty e.uid ≡ true
  pub start_date : IsDate e.start
  pub end_date : IsDate e.end
  pub stay : text_le e.end e.start ≡ false

abbrev pub imported : CalendarEvent → ImportedEvent
imported e = record { uid = e.uid; start = e.start; end = e.end }

-- Between two events.
abbrev idle : List ImportedEvent → List Text → Progress
idle events foreign = record { current = none; events = events; foreign = foreign }

header_read :
    (zone : ZoneContext) (prod_id : Text) (rest : List Text)
    → on_lines zone (some (idle [] [])) (header prod_id ++ rest)
      ≡ on_lines zone (some (idle [] [])) rest
unfolding on_lines on_line
header_read zone prod_id rest = refl

end_read :
    (zone : ZoneContext) (events : List ImportedEvent)
    → on_lines zone (some (idle events [])) (codes "END:VCALENDAR" ∷ [] ∷ [])
      ≡ some (idle events [])
unfolding on_lines on_line
end_read zone events = refl

module _ (zone : ZoneContext) (stamp start end : Text) (e : CalendarEvent)
    (events : List ImportedEvent) (rest : List Text) where
  fields_of : Text → Fields
  fields_of uid = record { uid = some uid; dtstart = some start; dtend = some end }

  fields_read :
      on_lines zone (some (idle events [])) (event_lines stamp e start end ++ rest)
      ≡ on_lines zone
          (push_event
            (record {
              current = some (fields_of (escape_text e.uid));
              events = events;
              foreign = [];
            })
            (to_event (fields_of (escape_text e.uid)) zone))
          rest
  unfolding on_lines on_line tzid_param fields_of
  fields_read = refl

  event_read :
      escape_text e.uid ≡ e.uid
      → to_event (fields_of e.uid) zone ≡ event (imported e)
      → on_lines zone (some (idle events [])) (event_lines stamp e start end ++ rest)
        ≡ on_lines zone (some (idle (events ++ imported e ∷ []) [])) rest
  event_read same built = fields_read ∙ rw (same, built) refl

-- The printed fields make the event.
fields-event :
    (zone : ZoneContext) (e : CalendarEvent) (h : IsExportable e)
    → to_event
        (record {
          uid = some e.uid;
          dtstart = some (IsDate-Printed e.start h.start_date).text;
          dtend = some (IsDate-Printed e.end h.end_date).text;
        })
        zone
      ≡ event (imported e)
unfolding to_event
fields-event zone e h = built e.uid h.token h.named
  where
    from : Printed e.start
    from = IsDate-Printed e.start h.start_date

    to : Printed e.end
    to = IsDate-Printed e.end h.end_date

    built :
        (uid : Text)
        → IsToken uid
        → non_empty uid ≡ true
        → to_event (record { uid = some uid; dtstart = some from.text; dtend = some to.text }) zone
          ≡ event (record { uid = uid; start = e.start; end = e.end })
    built [] token named = cc
    built (c ∷ cs) token named =
        rw (trim-IsToken (c ∷ cs) token, from.read zone, to.read zone, h.stay) refl

-- The lines of the events, read one event after another.
record Read (zone : ZoneContext) (stamp : Text) (es : List CalendarEvent) : Type 0 where
  lines : List Text
  printed : events_lines stamp es ≡ some lines
  are_lines : is_plain stamp ≡ true → All IsLine lines
  read :
      (events : List ImportedEvent) (rest : List Text)
      → on_lines zone (some (idle events [])) (lines ++ rest)
        ≡ on_lines zone (some (idle (events ++ map imported es) [])) rest

All-append : (P : Text → Type 0) (ks ls : List Text) → All P ks → All P ls → All P (ks ++ ls)
All-append P [] ls h k = k
All-append P (a ∷ ks) ls h k = (h.0, All-append P ks ls h.1 k)

event_lines-IsLine :
    (stamp start end : Text) (e : CalendarEvent)
    → is_plain stamp ≡ true
    → is_plain start ≡ true
    → is_plain end ≡ true
    → All IsLine (event_lines stamp e start end)
event_lines-IsLine stamp start end e p q r = (
  (refl, refl),
  (
    (refl, escape_text-plain e.uid),
    (
      (refl, p),
      (
        (refl, q),
        ((refl, r), ((refl, escape_text-plain event_summary), ((refl, refl), ((refl, refl), tt)))),
      ),
    ),
  ),
)

header-IsLine : (prod_id : Text) → All IsLine (header prod_id)
header-IsLine prod_id = (
  (refl, refl),
  ((refl, refl), ((refl, escape_text-plain prod_id), ((refl, refl), ((refl, refl), tt)))),
)

Read-cons :
    (zone : ZoneContext) (stamp : Text) (e : CalendarEvent) (es : List CalendarEvent)
    → IsExportable e
    → Read zone stamp es
    → Read zone stamp (e ∷ es)
unfolding events_lines fields_of
Read-cons zone stamp e es h later = record {
  lines = event_lines stamp e from.text to.text ++ later.lines;
  printed = rw (from.formatted, to.formatted, later.printed) refl;
  are_lines = λ p.
      All-append IsLine (event_lines stamp e from.text to.text) later.lines
        (event_lines-IsLine stamp from.text to.text e p from.plain to.plain) (later.are_lines p);
  read = λ events rest.
      event_read zone stamp from.text to.text e events (later.lines ++ rest)
        (escape_text-IsToken e.uid h.token) (fields-event zone e h)
      ∙ later.read (events ++ imported e ∷ []) rest
      ∙ simp append_assoc;
}
  where
    from : Printed e.start
    from = IsDate-Printed e.start h.start_date

    to : Printed e.end
    to = IsDate-Printed e.end h.end_date

events-Read :
    (zone : ZoneContext) (stamp : Text) (es : List CalendarEvent)
    → All IsExportable es
    → Read zone stamp es
unfolding events_lines
events-Read zone stamp [] h = record {
  lines = [];
  printed = refl;
  are_lines = λ p. tt;
  read = λ events rest. rw (append-nil events) refl;
}
events-Read zone stamp (e ∷ es) h = Read-cons zone stamp e es h.0 (events-Read zone stamp es h.1)

any-append : (p : Text → Bool) (ks ls : List Text) → any p (ks ++ ls) ≡ (any p ks || any p ls)
any-append p [] ls = refl
any-append p (k ∷ ks) ls = ground (arith, any-append p ks ls)

-- The envelope is there.
has_begin :
    (prod_id : Text) (rest : List Text) → has_line "BEGIN:VCALENDAR" (header prod_id ++ rest) ≡ true
unfolding has_line
has_begin prod_id rest = refl

has_end :
    (lines : List Text)
    → has_line "END:VCALENDAR" (lines ++ (codes "END:VCALENDAR" ∷ [] ∷ [])) ≡ true
unfolding has_line
has_end lines =
    any-append (λ line. text_eq (upper (trim line)) (codes "END:VCALENDAR")) lines
      (codes "END:VCALENDAR" ∷ [] ∷ [])
    ∙ ground arith

parse_lines_whole :
    (zone : ZoneContext) (lines : List Text)
    → has_line "BEGIN:VCALENDAR" lines ≡ true
    → has_line "END:VCALENDAR" lines ≡ true
    → parse_lines zone lines ≡ result_of (on_lines zone (some (idle [] [])) lines)
parse_lines_whole zone lines b e = rw (b, e) refl

module _ (formats : Text → Option (ℕ → Parts)) {parts : ℕ → Parts}
    (prod_id iso_stamp time_zone : Text) (events : List CalendarEvent) where
  -- For events with a non-empty uid of letters, digits and dashes, calendar dates and at least one
  -- night, for any PRODID, and for a stamp whose printed text has no line break, building the
  -- calendar succeeds, and parsing the text that it builds, in any zone that the platform has, gives
  -- the same uids and dates in the same order and names no foreign zone.
  pub parse_calendar-build_calendar :
      formats time_zone ≡ some parts
      → is_plain (format_date_time_utc iso_stamp) ≡ true
      → All IsExportable events
      → (body : Text) × (build_calendar prod_id iso_stamp events ≡ some body)
        × (parse_calendar formats body time_zone ≡ parsed (map imported events) [])
  unfolding build_calendar parse_calendar unfold_lines
  parse_calendar-build_calendar z p h = (
    print_lines whole,
    rw read.printed refl,
    rw z (rw (unfold_lines-print_lines whole are_lines, tail) read_whole),
  )
    where
      zone : ZoneContext
      zone = record { time_zone = time_zone; format_parts = parts }

      read : Read zone (format_date_time_utc iso_stamp) events
      read = events-Read zone (format_date_time_utc iso_stamp) events h

      whole : List Text
      whole = header prod_id ++ (read.lines ++ codes "END:VCALENDAR" ∷ [])

      are_lines : All IsLine whole
      are_lines =
          All-append IsLine (header prod_id) (read.lines ++ codes "END:VCALENDAR" ∷ [])
            (header-IsLine prod_id)
            (All-append IsLine read.lines (codes "END:VCALENDAR" ∷ []) (read.are_lines p)
              ((refl, refl), tt))

      tail : whole ++ [] ∷ [] ≡ header prod_id ++ (read.lines ++ (codes "END:VCALENDAR" ∷ [] ∷ []))
      tail = simp append_assoc

      last : List Text
      last = codes "END:VCALENDAR" ∷ [] ∷ []

      read_whole :
          parse_lines zone (header prod_id ++ (read.lines ++ last))
          ≡ parsed (map imported events) []
      read_whole =
          parse_lines_whole zone (header prod_id ++ (read.lines ++ last))
            (has_begin prod_id (read.lines ++ last)) (has_end (header prod_id ++ read.lines))
          ∙ ap result_of (
              header_read zone prod_id (read.lines ++ last)
              ∙ read.read [] last
              ∙ end_read zone (map imported events))
