-- ===== src/Tests/ChannelSync.antt =====
-- Runs of a sync: a feed that sells nights that are already held beside an event that lands.
use sambung.Common.{str_eq, any, true, List, ◌+◌, ◌≡◌, refl, String, some, none, [], ◌∷◌, map}
use sambung.Db.Schema.{airbnb, ChannelConnection, never, opened, dismissed, Db}
use sambung.Db.Overlap.{IsConsistent}
use sambung.ChannelSync.{
  dismiss, reconcile_feed, imported_row, ImportedEvent, ParseResult, parsed, fetched,
  sync_connection, SyncOutcome,
}
use sambung.ChannelSync.Judgement.{conflict_status, sync_connection-dismissed}
use sambung.ChannelSync.Imports.{foreigners, sync_connection-foreigners}
use sambung.ChannelSync.Listed.{reconcile_feed-listed}
use sambung.Db.Tx.{ok}
use sambung.ChannelSync.Dismissal.{dismiss_again}
use sambung.ChannelSync.Table.{sync_connection-IsConsistent}
use sambung.Tests.Data.{tables, tables-IsConsistent}

abbrev feed : ChannelConnection
feed = record {
  id = 5;
  unit_id = 10;
  tenant_id = 7;
  channel = airbnb;
  import_ical_url = "https://airbnb.example/10.ics";
  last_synced_at = none;
  last_status = never;
  last_error = none;
  created_at = 900;
}

-- The first event takes nights of a confirmed stay; the second is free.
abbrev pub events : List ImportedEvent
events =
    record { uid = "double"; start = 102; end = 104 }
    ∷ record { uid = "fresh"; start = 110; end = 112 }
    ∷ []

abbrev pub parse : List ImportedEvent → String → ParseResult
parse es zone = parsed es

abbrev joined : Db
joined = record tables { connections = feed ∷ [] }

abbrev synced : SyncOutcome × Db
synced = sync_connection (λ url. fetched events) parse feed 2000 (λ n. 200 + n) joined

abbrev dismissed_tables : Db
dismissed_tables = record tables {
  connections = feed ∷ [];
  conflicts =
      record {
        id = 60;
        tenant_id = 7;
        channel_connection_id = 5;
        unit_id = 10;
        external_uid = "double";
        check_in = 102;
        check_out = 104;
        status = dismissed;
        first_detected_at = 900;
        last_seen_at = 950;
        closed_at = some 960;
      }
      ∷ [];
}

abbrev dismissed_inbox : Db
dismissed_inbox = record synced.1 {
  conflicts =
      record {
        id = 200;
        tenant_id = 7;
        channel_connection_id = 5;
        unit_id = 10;
        external_uid = "double";
        check_in = 102;
        check_out = 104;
        status = dismissed;
        first_detected_at = 2000;
        last_seen_at = 2000;
        closed_at = some 3000;
      }
      ∷ [];
}

-- One event lands and one is filed.
synced_imported : synced.0.imported ≡ 1
unfolding sync_connection sambung.ChannelSync.resolve_time_zone sambung.ChannelSync.upsert_event
    sambung.Db.Bookings.row_check sambung.Db.Bookings.same_import sambung.Db.Bookings.insert_booking
    sambung.Db.Bookings.clash sambung.Db.Bookings.unit_fk
synced_imported = refl

synced_conflicts : synced.0.conflicts ≡ 1
unfolding sync_connection sambung.ChannelSync.resolve_time_zone sambung.ChannelSync.upsert_event
    sambung.Db.Bookings.row_check sambung.Db.Bookings.same_import sambung.Db.Bookings.insert_booking
    sambung.Db.Bookings.clash sambung.Db.Bookings.unit_fk
synced_conflicts = refl

synced_rows : map (λ b. b.id) synced.1.bookings ≡ 201 ∷ 100 ∷ 101 ∷ []
unfolding sync_connection sambung.ChannelSync.resolve_time_zone sambung.ChannelSync.stamp_ok
    sambung.ChannelSync.close_healed sambung.ChannelSync.cancel_absent
    sambung.ChannelSync.upsert_event sambung.Db.Bookings.row_check sambung.Db.Bookings.same_import
    sambung.Db.Bookings.insert_booking sambung.Db.Bookings.clash sambung.Db.Bookings.unit_fk
synced_rows = refl

synced_inbox : map (λ c. c.status) synced.1.conflicts ≡ opened ∷ []
unfolding sync_connection sambung.ChannelSync.resolve_time_zone sambung.ChannelSync.stamp_ok
    sambung.ChannelSync.close_healed sambung.ChannelSync.cancel_absent
    sambung.ChannelSync.upsert_event sambung.Db.Bookings.row_check sambung.Db.Bookings.same_import
    sambung.Db.Bookings.insert_booking sambung.Db.Bookings.clash sambung.Db.Bookings.unit_fk
synced_inbox = refl

joined-IsConsistent : IsConsistent joined
joined-IsConsistent = record {
  unique_ids = tables-IsConsistent.unique_ids;
  no_overlap = tables-IsConsistent.no_overlap;
  own_units = tables-IsConsistent.own_units;
}

sync_connection-dismissed_example :
    conflict_status 60
      (sync_connection (λ url. fetched events) parse feed 2000 (λ n. 200 + n) dismissed_tables).1
    ≡ some dismissed
sync_connection-dismissed_example =
    sync_connection-dismissed feed 60 (λ url. fetched events) parse 2000 (λ n. 200 + n)
      dismissed_tables refl

sync_connection-IsConsistent_example :
    IsConsistent (sync_connection (λ url. fetched events) parse feed 2000 (λ n. 200 + n) joined).1
sync_connection-IsConsistent_example =
    sync_connection-IsConsistent feed (λ url. fetched events) parse 2000 (λ n. 200 + n) joined
      joined-IsConsistent

sync_connection-foreigners_example :
    foreigners feed
      (sync_connection (λ url. fetched events) parse feed 2000 (λ n. 200 + n) joined).1.bookings
    ≡ foreigners feed joined.bookings
sync_connection-foreigners_example =
    sync_connection-foreigners feed (λ url. fetched events) parse 2000 (λ n. 200 + n) joined
      joined-IsConsistent

reconcile_feed-listed_example : any (λ e. str_eq e.uid "fresh") events ≡ true
unfolding reconcile_feed sambung.ChannelSync.stamp_ok sambung.ChannelSync.close_healed
    sambung.ChannelSync.cancel_absent sambung.ChannelSync.upsert_event sambung.Db.Bookings.row_check
    sambung.Db.Bookings.same_import sambung.Db.Bookings.insert_booking sambung.Db.Bookings.clash
    sambung.Db.Bookings.unit_fk
reconcile_feed-listed_example =
    reconcile_feed-listed feed (record { uid = "double"; start = 102; end = 104 })
      (record { uid = "fresh"; start = 110; end = 112 } ∷ []) 2000 (λ n. 200 + n) joined 201 "fresh"
      {b = imported_row 201 feed (record { uid = "fresh"; start = 110; end = 112 })} refl refl refl
      refl refl

-- The conflict that the pull filed is dismissed.
dismissed_once : dismiss 7 3000 200 synced.1 ≡ ok ((dismissed, some 3000), dismissed_inbox)
unfolding dismiss sync_connection sambung.ChannelSync.resolve_time_zone sambung.ChannelSync.stamp_ok
    sambung.ChannelSync.close_healed sambung.ChannelSync.cancel_absent
    sambung.ChannelSync.upsert_event sambung.Db.Bookings.row_check sambung.Db.Bookings.same_import
    sambung.Db.Bookings.insert_booking sambung.Db.Bookings.clash sambung.Db.Bookings.unit_fk
dismissed_once = refl

dismiss_again_example :
    dismiss 7 4000 200 dismissed_inbox ≡ ok ((dismissed, some 3000), dismissed_inbox)
dismiss_again_example = dismiss_again 7 200 3000 4000 synced.1 dismissed_once
