-- ===== src/ChannelSync.antt =====
-- `ICalImportService.syncConnection` (apps/api/src/channel-sync/ical-import.service.ts): Events has the
-- upsert of one event, Inbox the conflicts. The fetch of a feed and the reading of its text are
-- parameters. A savepoint that fails leaves the transaction as it was before.
mod Events
mod Inbox
unfoldable pub use Events.*
unfoldable pub use Inbox.*
pub mod Blind
pub mod Keeps
pub mod Table
pub mod Judgement
pub mod Imports
pub mod Listed
pub mod Dismissal
use sambung.Common.{
  ℕ, ◌+◌, String, Bool, true, false, not, ◌&&◌, Option, none, some, List, [], ◌∷◌, ◌==◌, str_eq,
  if◌then◌else◌, find, any, select, length,
}
use sambung.Db.Tx.{violates, Constraint, booking_no_overlap, Result, ok, err, Error}
use sambung.Db.Schema.{
  UnitRow, Property, Booking, BookingStatus, is_confirmed, ChannelConnection, SyncStatus, Db,
}
use sambung.Db.Bookings.{some_eq, update_where}
use sambung.Booking.{set_status}

abbrev pub is_overlap_violation : Error → Bool
is_overlap_violation (violates Constraint.booking_no_overlap) = true
is_overlap_violation _ = false

pub record Tally : Type 0 where
  pub imported : ℕ
  pub conflicts : ℕ
  pub not_imported : List String

-- One round of the loop, after the savepoint.
after_savepoint :
    ℕ → ChannelConnection → ImportedEvent → ℕ → Tally → Db → Result (Unit {0} × Db) → Tally × Db
unfolding record_conflict
after_savepoint id conn event now t db (ok (u, after)) =
    (record t { imported = t.imported + 1 }, after)
after_savepoint id conn event now t db (err e) =
    if is_overlap_violation e
    then (
      record t { conflicts = t.conflicts + 1; not_imported = event.uid ∷ t.not_imported },
      record_conflict id conn event now db,
    )
    else (record t { not_imported = event.uid ∷ t.not_imported }, db)

-- `ids` has the new uuids, one at each position of the feed.
import_events : ChannelConnection → ℕ → (ℕ → ℕ) → ℕ → List ImportedEvent → Tally × Db → Tally × Db
unfolding after_savepoint
import_events conn now ids n [] s = s
import_events conn now ids n (event ∷ events) s =
    import_events conn now ids (n + 1) events
      (after_savepoint (ids n) conn event now s.0 s.1 (upsert_event (ids n) conn event s.1))

abbrev uid_absent : Option String → List ImportedEvent → Bool
uid_absent none events = false
uid_absent (some uid) events = not (any (λ e. str_eq e.uid uid) events)

-- The WHERE of `cancelAbsent`.
unfoldable pub is_absent : ChannelConnection → List ImportedEvent → Booking → Bool
is_absent conn events b =
    some_eq b.channel_connection_id (some conn.id)
    && b.tenant_id == conn.tenant_id
    && is_confirmed b.status
    && uid_absent b.external_uid events

unfoldable pub cancel_absent : ChannelConnection → List ImportedEvent → Db → Db
unfolding is_absent
cancel_absent conn [] db = db
cancel_absent conn (e ∷ es) db = record db {
  bookings =
      update_where (is_absent conn (e ∷ es)) (set_status BookingStatus.cancelled) db.bookings;
}

abbrev own_connection : ChannelConnection → ChannelConnection → Bool
own_connection conn c = c.id == conn.id && c.tenant_id == conn.tenant_id

unfoldable pub stamp_ok : ChannelConnection → ℕ → Db → Db
stamp_ok conn now db = record db {
  connections =
      update_where (own_connection conn)
        (λ c. record c {
          last_status = SyncStatus.ok;
          last_synced_at = some now;
          last_error = none;
        })
        db.connections;
}

unfoldable pub mark_error : ChannelConnection → String → Db → Db
mark_error conn message db = record db {
  connections =
      update_where (own_connection conn)
        (λ c. record c { last_status = SyncStatus.error; last_error = some message })
        db.connections;
}

abbrev zone_of_property : Option Property → Option String
zone_of_property none = none
zone_of_property (some p) = some p.time_zone

abbrev zone_of_unit : ℕ → Db → Option UnitRow → Option String
zone_of_unit tenant db none = none
zone_of_unit tenant db (some u) =
    zone_of_property (find (λ p. p.id == u.property_id && p.tenant_id == tenant) db.properties)

unfoldable pub resolve_time_zone : ChannelConnection → Db → Option String
resolve_time_zone conn db =
    zone_of_unit conn.tenant_id db
      (find (λ u. u.id == conn.unit_id && u.tenant_id == conn.tenant_id) db.units)

pub data Fetched (Body : Type 0) : Type 0 where
  unreachable : String → Fetched Body
  fetched : Body → Fetched Body

pub data ParseResult : Type 0 where
  unhealthy : String → ParseResult
  parsed : List ImportedEvent → ParseResult

pub record SyncOutcome : Type 0 where
  pub status : SyncStatus
  pub last_synced_at : Option ℕ
  pub last_error : Option String
  pub imported : ℕ
  pub cancelled : ℕ
  pub conflicts : ℕ

abbrev absent_count : ChannelConnection → List ImportedEvent → Db → ℕ
absent_count conn [] db = 0
absent_count conn (e ∷ es) db = length (select (is_absent conn (e ∷ es)) db.bookings)

-- The rest of the transaction, after the loop.
finish : ChannelConnection → ℕ → List ImportedEvent → Tally × Db → SyncOutcome × Db
finish conn now events (t, db) = (
  record {
    status = SyncStatus.ok;
    last_synced_at = some now;
    last_error = none;
    imported = t.imported;
    cancelled = absent_count conn events db;
    conflicts = t.conflicts;
  },
  stamp_ok conn now (close_healed conn events t.not_imported now (cancel_absent conn events db)),
)

unfoldable pub reconcile_feed :
    ChannelConnection → ℕ → (ℕ → ℕ) → List ImportedEvent → Db → SyncOutcome × Db
unfolding finish import_events
reconcile_feed conn now ids events db = finish conn now events (
    import_events conn now ids 0 events
      (record { imported = 0; conflicts = 0; not_imported = [] }, db))

failed_sync : ChannelConnection → String → Db → SyncOutcome × Db
failed_sync conn message db = (
  record {
    status = SyncStatus.error;
    last_synced_at = conn.last_synced_at;
    last_error = some message;
    imported = 0;
    cancelled = 0;
    conflicts = 0;
  },
  mark_error conn message db,
)

sync_parsed : ChannelConnection → ℕ → (ℕ → ℕ) → ParseResult → Db → SyncOutcome × Db
unfolding failed_sync reconcile_feed
sync_parsed conn now ids (unhealthy message) db = failed_sync conn message db
sync_parsed conn now ids (parsed events) db = reconcile_feed conn now ids events db

module _ {Body : Type 0} (fetch_feed : String → Fetched Body)
    (parse_calendar : Body → String → ParseResult) where
  sync_body : ChannelConnection → ℕ → (ℕ → ℕ) → Body → Option String → Db → SyncOutcome × Db
  unfolding failed_sync sync_parsed
  sync_body conn now ids body none db = failed_sync conn "Unit or property no longer exists" db
  sync_body conn now ids body (some zone) db =
      sync_parsed conn now ids (parse_calendar body zone) db

  sync_fetched : ChannelConnection → ℕ → (ℕ → ℕ) → Fetched Body → Db → SyncOutcome × Db
  unfolding failed_sync sync_body
  sync_fetched conn now ids (unreachable message) db = failed_sync conn message db
  sync_fetched conn now ids (fetched body) db =
      sync_body conn now ids body (resolve_time_zone conn db) db

  unfoldable pub sync_connection : ChannelConnection → ℕ → (ℕ → ℕ) → Db → SyncOutcome × Db
  unfolding sync_fetched
  sync_connection conn now ids db = sync_fetched conn now ids (fetch_feed conn.import_ical_url) db
