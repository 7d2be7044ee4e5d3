-- ===== src/ChannelSync/Events.antt =====
-- `upsertEvent` of apps/api/src/channel-sync/ical-import.service.ts: one event as a booking.
use sambung.Common.{
  ℕ, String, not, Option, none, some, List, map, ◌==◌, if◌then◌else◌, find, select,
}
use sambung.Db.Tx.{
  violates, Constraint, booking_no_overlap, Tx, ◌>>=◌, ◌>>◌, pure, throw, query, modify, guard,
}
use sambung.Db.Schema.{Booking, confirmed, ChannelConnection}
use sambung.Db.Bookings.{same_import, clashes, row_check, insert_booking}

pub record ImportedEvent : Type 0 where
  pub uid : String
  pub start : ℕ
  pub end : ℕ

-- The row that an event proposes.
abbrev pub imported_row : ℕ → ChannelConnection → ImportedEvent → Booking
imported_row id conn event = record {
  id = id;
  tenant_id = conn.tenant_id;
  unit_id = conn.unit_id;
  source = conn.channel;
  status = confirmed;
  check_in = event.start;
  check_out = event.end;
  guest_name = none;
  guest_phone = none;
  guest_email = none;
  guest_count = none;
  total_price_idr = none;
  external_uid = some event.uid;
  channel_connection_id = some conn.id;
  hold_expires_at = none;
}

-- `DO UPDATE SET check_in, check_out, status = 'confirmed'`
abbrev pub moved : ImportedEvent → Booking → Booking
moved event b = record b { check_in = event.start; check_out = event.end; status = confirmed }

-- The exclusion constraint holds a row against every other one.
abbrev pub others : ℕ → List Booking → List Booking
others id bs = select (λ c. not (c.id == id)) bs

abbrev pub replace : ℕ → Booking → List Booking → List Booking
replace id b bs = map (λ c. if c.id == id then b else c) bs

-- The arbiter index has a row, or the proposed row is inserted.
unfoldable pub on_conflict : Booking → ImportedEvent → Option Booking → Tx (Unit {0})
on_conflict row event none = do insert_booking row; pure tt
on_conflict row event (some b) = do
  taken ← query (λ db. clashes (moved event b) (others b.id db.bookings))
  guard (not taken) (violates booking_no_overlap)
  modify λ db. record db { bookings = replace b.id (moved event b) db.bookings }

unfoldable pub refuse : Option Constraint → Tx (Unit {0})
refuse none = pure tt
refuse (some c) = throw (violates c)

unfoldable pub upsert_event : ℕ → ChannelConnection → ImportedEvent → Tx (Unit {0})
unfolding on_conflict refuse
upsert_event id conn event = do
  refuse (row_check (imported_row id conn event))
  existing ← query (λ db. find (same_import (imported_row id conn event)) db.bookings)
  on_conflict (imported_row id conn event) event existing
