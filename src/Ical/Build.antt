-- ===== src/Ical/Build.antt =====
-- apps/api/src/channel-sync/ical.ts: `buildCalendar`. The text of `toISOString` of the stamp is an
-- argument. `none` is the exception for a date of another shape.
use sambung.Common.{
  ℕ, ◌+◌, Bool, true, false, ◌&&◌, ◌||◌, Option, none, some, List, [], ◌∷◌, ◌++◌, ltb, leb, ◌==◌,
  if◌then◌else◌,
}
use sambung.Ical.Text.{Text, codes, is_digit}

infixl 5 ◌>>=◌
abbrev ◌>>=◌ : {A B : Type 0} → Option A → (A → Option B) → Option B
none >>= f = none
some a >>= f = f a

pub record CalendarEvent : Type 0 where
  pub uid : Text
  pub start : Text
  pub end : Text

abbrev pub event_summary : Text
event_summary = codes "Unavailable (Sambung)"

abbrev pub crlf : Text
crlf = b'\r' ∷ b'\n' ∷ []

-- `.replace` of every `c` by `c` after a backslash
unfoldable pub escape_char : ℕ → Text → Text
escape_char c [] = []
escape_char c (d ∷ ds) = (if d == c then b'\\' ∷ d ∷ [] else d ∷ []) ++ escape_char c ds

-- `.replace(/\r\n|\r|\n/g, '\\n')`; the flag says that the character before was a CR.
unfoldable pub escape_newlines : Bool → Text → Text
escape_newlines after_cr [] = []
escape_newlines after_cr (c ∷ cs) =
    (if after_cr && c == b'\n'
      then []
      else if c == b'\r' || c == b'\n'
      then b'\\' ∷ b'n' ∷ []
      else c ∷ [])
    ++ escape_newlines (c == b'\r') cs

unfoldable pub escape_text : Text → Text
escape_text t = escape_newlines false (escape_char b',' (escape_char b';' (escape_char b'\\' t)))

-- `YYYY-MM-DD` without its dashes.
unfoldable pub format_date : Text → Option Text
format_date (a ∷ b ∷ c ∷ d ∷ s ∷ e ∷ f ∷ t ∷ g ∷ h ∷ []) =
    if is_digit a
      && is_digit b
      && is_digit c
      && is_digit d
      && s == b'-'
      && is_digit e
      && is_digit f
      && t == b'-'
      && is_digit g
      && is_digit h
    then some (a ∷ b ∷ c ∷ d ∷ e ∷ f ∷ g ∷ h ∷ [])
    else none
format_date _ = none

-- `.replace(/[-:]/g, '')`
abbrev drop_marks : Text → Text
drop_marks [] = []
drop_marks (c ∷ cs) = let rest = drop_marks cs in if c == b'-' || c == b':' then rest else c ∷ rest

-- `.replace(/\.\d{3}Z$/, 'Z')`
abbrev is_millis : Text → Bool
is_millis (p ∷ a ∷ b ∷ c ∷ z ∷ []) =
    p == b'.' && is_digit a && is_digit b && is_digit c && z == b'Z'
is_millis _ = false

abbrev drop_millis : Text → Text
drop_millis [] = []
drop_millis (c ∷ cs) =
    let kept = c ∷ drop_millis cs in if is_millis (c ∷ cs) then codes "Z" else kept

unfoldable pub format_date_time_utc : Text → Text
format_date_time_utc iso = drop_millis (drop_marks iso)

-- The bytes of a code point in UTF-8.
unfoldable pub octets : ℕ → ℕ
octets c = if ltb c 0x80 then 1 else if ltb c 0x800 then 2 else if ltb c 0x10000 then 3 else 4

unfoldable pub text_octets : Text → ℕ
unfolding octets
text_octets [] = 0
text_octets (c ∷ cs) = octets c + text_octets cs

-- What stands before the characters of a line.
abbrev pub lead : Bool → Text
lead true = []
lead false = b' ' ∷ []

abbrev pub limit : Bool → ℕ
limit true = 75
limit false = 74

-- The loop of `foldLine`, on its variables `out`, `current`, `bytes` and `first`.
unfoldable pub fold_from : Text → Text → ℕ → Bool → Text → Text
fold_from out current bytes first [] = out ++ (lead first ++ current)
fold_from out current bytes first (ch ∷ rest) =
    let broken =
      fold_from (out ++ (lead first ++ (current ++ crlf))) (ch ∷ []) (octets ch) false rest in
    let kept = fold_from out (current ++ ch ∷ []) (bytes + octets ch) first rest in
    if ltb (limit first) (bytes + octets ch) then broken else kept

unfoldable pub fold_line : Text → Text
fold_line line = if leb (text_octets line) 75 then line else fold_from [] [] 0 true line

abbrev pub event_lines : Text → CalendarEvent → Text → Text → List Text
event_lines stamp event start end =
    codes "BEGIN:VEVENT"
    ∷ (codes "UID:" ++ escape_text event.uid)
    ∷ (codes "DTSTAMP:" ++ stamp)
    ∷ (codes "DTSTART;VALUE=DATE:" ++ start)
    ∷ (codes "DTEND;VALUE=DATE:" ++ end)
    ∷ (codes "SUMMARY:" ++ escape_text event_summary)
    ∷ codes "TRANSP:OPAQUE"
    ∷ codes "END:VEVENT"
    ∷ []

abbrev pub header : Text → List Text
header prod_id =
    codes "BEGIN:VCALENDAR"
    ∷ codes "VERSION:2.0"
    ∷ (codes "PRODID:" ++ escape_text prod_id)
    ∷ codes "CALSCALE:GREGORIAN"
    ∷ codes "METHOD:PUBLISH"
    ∷ []

-- The lines of the loop over the events.
unfoldable pub events_lines : Text → List CalendarEvent → Option (List Text)
events_lines stamp [] = some []
events_lines stamp (event ∷ events) = do
  start ← format_date event.start
  end ← format_date event.end
  rest ← events_lines stamp events
  some (event_lines stamp event start end ++ rest)

-- The folded lines, each with its CRLF.
unfoldable pub print_lines : List Text → Text
print_lines [] = []
print_lines (l ∷ ls) = fold_line l ++ (crlf ++ print_lines ls)

unfoldable pub build_calendar : Text → Text → List CalendarEvent → Option Text
build_calendar prod_id iso_stamp events = do
  lines ← events_lines (format_date_time_utc iso_stamp) events
  some (print_lines (header prod_id ++ (lines ++ codes "END:VCALENDAR" ∷ [])))
