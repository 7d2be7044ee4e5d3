-- ===== src/Ical/Parse.antt =====
-- `toEvent` and `parseCalendar` of apps/api/src/channel-sync/ical-parse.ts.
use sambung.Ical.IsoDate.{ZoneContext, to_iso_date, add_one_day, Parts}
use sambung.Common.{
  ℕ, String, Bool, not, ◌&&◌, ◌||◌, Option, none, some, List, [], ◌∷◌, ◌++◌, if◌then◌else◌, any,
}
use sambung.Ical.Text.{Text, codes, text_eq, text_le, trim, upper}
use sambung.Ical.Lines.{ContentLine, split_line, unfold_lines}

pub record ImportedEvent : Type 0 where
  pub uid : Text
  pub start : Text
  pub end : Text

-- The three entries of the map of a VEVENT.
pub record Fields : Type 0 where
  pub uid : Option Text
  pub dtstart : Option Text
  pub dtend : Option Text

-- An event, null, or an exception.
pub data Built : Type 0 where
  event : ImportedEvent → Built
  skipped : Built
  thrown : Built

abbrev pub ranged : Text → Text → Option Text → Built
ranged uid start none = skipped
ranged uid start (some end) =
    if text_le end start then skipped else event (record { uid = uid; start = start; end = end })

abbrev pub one_day : Text → Text → Option Text → Built
one_day uid start none = thrown
one_day uid start (some end) = ranged uid start (some end)

abbrev pub ended : ZoneContext → Text → Text → Option Text → Built
ended zone uid start none = one_day uid start (add_one_day start)
ended zone uid start (some raw_end) = ranged uid start (to_iso_date raw_end zone)

abbrev pub started : ZoneContext → Fields → Text → Option Text → Built
started zone fields uid none = skipped
started zone fields uid (some start) = ended zone uid start fields.dtend

abbrev pub date_of : ZoneContext → Option Text → Option Text
date_of zone none = none
date_of zone (some raw) = to_iso_date raw zone

abbrev pub identified : ZoneContext → Fields → Text → Built
identified zone fields [] = skipped
identified zone fields (c ∷ cs) = started zone fields (c ∷ cs) (date_of zone fields.dtstart)

abbrev pub named : ZoneContext → Fields → Option Text → Built
named zone fields none = skipped
named zone fields (some raw) = identified zone fields (trim raw)

unfoldable pub to_event : Fields → ZoneContext → Built
to_event fields zone = named zone fields fields.uid

abbrev pub no_fields : Fields
no_fields = record { uid = none; dtstart = none; dtend = none }

-- First occurrence wins.
abbrev pub first_of : Option Text → Text → Option Text
first_of none value = some value
first_of (some old) value = some old

abbrev is_uid : Text → Bool
is_uid name = text_eq name (codes "UID")

abbrev is_dtstart : Text → Bool
is_dtstart name = text_eq name (codes "DTSTART")

abbrev is_dtend : Text → Bool
is_dtend name = text_eq name (codes "DTEND")

abbrev pub collect : Text → Text → Fields → Fields
collect name value f =
    if is_uid name
    then record f { uid = first_of f.uid value }
    else if is_dtstart name
    then record f { dtstart = first_of f.dtstart value }
    else record f { dtend = first_of f.dtend value }

-- The variables of the loop: `current`, `events` and `foreign`.
pub record Progress : Type 0 where
  pub current : Option Fields
  pub events : List ImportedEvent
  pub foreign : List Text

abbrev pub add_foreign : Text → Option Text → List Text → List Text
add_foreign zone none seen = seen
add_foreign zone (some tzid) seen =
    if text_eq tzid zone || any (λ t. text_eq t tzid) seen then seen else seen ++ tzid ∷ []

-- The rest of the loop's body, inside a VEVENT.
abbrev pub collected : ZoneContext → ContentLine → Progress → Option Fields → Progress
collected zone line p none = p
collected zone line p (some f) =
    if is_uid line.name || is_dtstart line.name || is_dtend line.name
    then record p {
      current = some (collect line.name line.value f);
      foreign = add_foreign zone.time_zone line.tzid p.foreign;
    }
    else p

abbrev pub push_event : Progress → Built → Option Progress
push_event p (event e) = some (record p { current = none; events = p.events ++ e ∷ [] })
push_event p skipped = some (record p { current = none })
push_event p thrown = none

abbrev pub close_event : ZoneContext → Progress → Option Fields → Option Progress
close_event zone p none = some p
close_event zone p (some f) = push_event p (to_event f zone)

abbrev pub is_vevent : ContentLine → Text → Bool
is_vevent line keyword =
    text_eq line.name keyword && text_eq (upper (trim line.value)) (codes "VEVENT")

abbrev pub on_parsed : ZoneContext → Progress → Option ContentLine → Option Progress
on_parsed zone p none = some p
on_parsed zone p (some line) =
    if is_vevent line (codes "BEGIN")
    then some (record p { current = some no_fields })
    else if is_vevent line (codes "END")
    then close_event zone p p.current
    else some (collected zone line p p.current)

-- One round of the loop. `none` is an exception.
unfoldable pub on_line : ZoneContext → Progress → Text → Option Progress
unfolding split_line upper
on_line zone p line = on_parsed zone p (split_line line)

unfoldable pub on_lines : ZoneContext → Option Progress → List Text → Option Progress
on_lines zone none lines = none
on_lines zone (some p) [] = some p
on_lines zone (some p) (line ∷ lines) = on_lines zone (on_line zone p line) lines

-- `raised` is an exception, which the source says never leaves the parser.
pub data ParseResult : Type 0 where
  parsed : List ImportedEvent → List Text → ParseResult
  unusable_zone : ParseResult
  not_terminated : ParseResult
  raised : ParseResult

unfoldable pub has_line : String → List Text → Bool
unfolding upper
has_line keyword lines = any (λ line. text_eq (upper (trim line)) (codes keyword)) lines

abbrev pub result_of : Option Progress → ParseResult
result_of none = raised
result_of (some p) = parsed p.events p.foreign

abbrev pub parse_lines : ZoneContext → List Text → ParseResult
parse_lines zone lines =
    if not (has_line "BEGIN:VCALENDAR" lines) || not (has_line "END:VCALENDAR" lines)
    then not_terminated
    else result_of
        (on_lines zone (some (record { current = none; events = []; foreign = [] })) lines)

abbrev pub in_zone : Text → Text → Option (ℕ → Parts) → ParseResult
in_zone body time_zone none = unusable_zone
in_zone body time_zone (some parts) =
    parse_lines (record { time_zone = time_zone; format_parts = parts }) (unfold_lines body)

-- `formats` is `none` for a zone that `Intl` does not have, else its `formatToParts`.
unfoldable pub parse_calendar : (Text → Option (ℕ → Parts)) → Text → Text → ParseResult
unfolding unfold_lines
parse_calendar formats body time_zone = in_zone body time_zone (formats time_zone)
