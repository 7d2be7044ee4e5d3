-- ===== src/ChannelSync/Keeps.antt =====
-- What a sync keeps (apps/api/src/channel-sync/ical-import.service.ts): whatever each of its writes
-- keeps.
use sambung.Db.Bookings.{insert_booking}
use sambung.Common.{
  refl, ◌≡◌, ℕ, ◌+◌, inl, inr, String, Option, none, some, List, [], ◌∷◌, Bool-cases,
}
use sambung.Db.Tx.{modify, Constraint, committed, Result, ok, err}
use sambung.Db.Schema.{Booking, ChannelConnection, Db}
use sambung.Db.Overlap.{insert_booking-Inserted}
use sambung.Db.Keeps.{keeps_rules, Keeps}
use sambung.ChannelSync.{
  replace, imported_row, refuse, on_conflict, file_conflict, ImportedEvent, upsert_event,
  record_conflict, is_overlap_violation, Tally, after_savepoint, import_events, cancel_absent,
  close_healed, stamp_ok, mark_error, finish, reconcile_feed, failed_sync, sync_parsed, ParseResult,
  unhealthy, parsed, Fetched, unreachable, fetched, sync_body, sync_fetched, sync_connection,
}

pub refuse-Keeps : {P : Db → Type 0} (c : Option Constraint) → Keeps P (refuse c)
unfolding refuse
refuse-Keeps none = search keeps_rules
refuse-Keeps (some c) = search keeps_rules

pub upsert_event-Keeps :
    {P : Db → Type 0} (id : ℕ) (conn : ChannelConnection) (event : ImportedEvent)
    → ((o : Option Booking) → Keeps P (on_conflict (imported_row id conn event) event o))
    → Keeps P (upsert_event id conn event)
unfolding upsert_event
upsert_event-Keeps id conn event conflict = search (keeps_rules, refuse-Keeps, conflict) depth 8

module _ {P : Db → Type 0}
    (any_rows : (bs : List Booking) (db : Db) → P db → P (record db { bookings = bs })) where
  insert_booking-Keeps : (b : Booking) → Keeps P (insert_booking b)
  insert_booking-Keeps b = record { at = λ db h. inserted db (insert_booking b db) refl h }
    where
      inserted :
          (db : Db) (r : Result (Booking × Db))
          → insert_booking b db ≡ r
          → P db
          → P (committed db r)
      inserted db (ok (x, after)) e h =
          rw (insert_booking-Inserted b db e).added (any_rows (b ∷ db.bookings) db h)
      inserted db (err x) e h = h

  replaces-Keeps :
      (id : ℕ) (b : Booking)
      → Keeps P (modify λ db. record db { bookings = replace id b db.bookings })
  replaces-Keeps id b = record { at = λ db h. any_rows (replace id b db.bookings) db h }

  on_conflict-Keeps :
      (row : Booking) (event : ImportedEvent) (o : Option Booking)
      → Keeps P (on_conflict row event o)
  unfolding on_conflict
  on_conflict-Keeps row event none = search (keeps_rules, insert_booking-Keeps) depth 6
  on_conflict-Keeps row event (some b) = search (keeps_rules, replaces-Keeps) depth 8

  -- What does not look at the bookings.
  pub any_rows-upserts :
      (conn : ChannelConnection) (id : ℕ) (event : ImportedEvent)
      → Keeps P (upsert_event id conn event)
  any_rows-upserts conn id event =
      upsert_event-Keeps id conn event (on_conflict-Keeps (imported_row id conn event) event)

-- Kept by the writes of a sync of the connection.
pub record SyncWrites (conn : ChannelConnection) (P : Db → Type 0) : Type 0 where
  pub upserts : (id : ℕ) (event : ImportedEvent) → Keeps P (upsert_event id conn event)
  pub files : (id : ℕ) (event : ImportedEvent) (now : ℕ) → Keeps P (file_conflict id conn event now)
  pub cancels : (events : List ImportedEvent) (db : Db) → P db → P (cancel_absent conn events db)
  pub closes :
      (events : List ImportedEvent) (uids : List String) (now : ℕ) (db : Db)
      → P db
      → P (close_healed conn events uids now db)
  pub stamps : (now : ℕ) (db : Db) → P db → P (stamp_ok conn now db)
  pub marks : (message : String) (db : Db) → P db → P (mark_error conn message db)

module _ {conn : ChannelConnection} {P : Db → Type 0} (w : SyncWrites conn P) where
  recorded :
      (id : ℕ) (event : ImportedEvent) (now : ℕ) (db : Db)
      → P db
      → P (record_conflict id conn event now db)
  unfolding record_conflict
  recorded id event now db h = (w.files id event now).at db h

  after_savepoint-keeps :
      (id : ℕ) (event : ImportedEvent) (now : ℕ) (t : Tally) (db : Db) (r : Result (Unit {0} × Db))
      → P db
      → P (committed db r)
      → P (after_savepoint id conn event now t db r).1
  unfolding after_savepoint
  after_savepoint-keeps id event now t db (ok (u, after)) h k = k
  after_savepoint-keeps id event now t db (err e) h k = elim (Bool-cases (is_overlap_violation e)) [
    | inl y ↦ rw y (recorded id event now db h)
    | inr n ↦ rw n h
  ]

  import_events-keeps :
      (now : ℕ) (ids : ℕ → ℕ) (n : ℕ) (events : List ImportedEvent) (s : Tally × Db)
      → P s.1
      → P (import_events conn now ids n events s).1
  unfolding import_events
  import_events-keeps now ids n [] s h = h
  import_events-keeps now ids n (event ∷ events) s h =
      import_events-keeps now ids (n + 1) events _ (
        after_savepoint-keeps (ids n) event now s.0 s.1 (upsert_event (ids n) conn event s.1) h
          ((w.upserts (ids n) event).at s.1 h))

  finish-keeps :
      (now : ℕ) (events : List ImportedEvent) (s : Tally × Db)
      → P s.1
      → P (finish conn now events s).1
  unfolding finish
  finish-keeps now events (t, db) h =
      w.stamps now _ (w.closes events t.not_imported now _ (w.cancels events db h))

  sync_parsed-keeps :
      (now : ℕ) (ids : ℕ → ℕ) (r : ParseResult) (db : Db)
      → P db
      → P (sync_parsed conn now ids r db).1
  unfolding sync_parsed failed_sync reconcile_feed
  sync_parsed-keeps now ids (unhealthy message) db h = w.marks message db h
  sync_parsed-keeps now ids (parsed events) db h =
      finish-keeps now events
        (import_events conn now ids 0 events
          (record { imported = 0; conflicts = 0; not_imported = [] }, db))
        (import_events-keeps now ids 0 events
          (record { imported = 0; conflicts = 0; not_imported = [] }, db) h)

  module _ {Body : Type 0} (fetch_feed : String → Fetched Body)
      (parse_calendar : Body → String → ParseResult) where
    sync_body-keeps :
        (now : ℕ) (ids : ℕ → ℕ) (body : Body) (zone : Option String) (db : Db)
        → P db
        → P (sync_body fetch_feed parse_calendar conn now ids body zone db).1
    unfolding sync_body failed_sync
    sync_body-keeps now ids body none db h = w.marks _ db h
    sync_body-keeps now ids body (some zone) db h =
        sync_parsed-keeps now ids (parse_calendar body zone) db h

    sync_fetched-keeps :
        (now : ℕ) (ids : ℕ → ℕ) (r : Fetched Body) (db : Db)
        → P db
        → P (sync_fetched fetch_feed parse_calendar conn now ids r db).1
    unfolding sync_fetched failed_sync
    sync_fetched-keeps now ids (unreachable message) db h = w.marks message db h
    sync_fetched-keeps now ids (fetched body) db h = sync_body-keeps now ids body _ db h

    pub sync_connection-keeps :
        (now : ℕ) (ids : ℕ → ℕ) (db : Db)
        → P db
        → P (sync_connection fetch_feed parse_calendar conn now ids db).1
    unfolding sync_connection
    sync_connection-keeps now ids db h =
        sync_fetched-keeps now ids (fetch_feed conn.import_ical_url) db h
