-- ===== src/Ical.antt =====
-- iCalendar text, in and out: apps/api/src/channel-sync/ical-parse.ts and ical.ts.
-- A text is the list of its code points.
pub mod Text
pub mod Date
pub mod Calendar
pub mod Lines
pub mod Build
pub mod IsoDate
pub mod Parse
pub mod Folding
pub mod Octets
pub mod NeverRaises
pub mod Exported
pub mod RoundTrip
pub mod NextDay
