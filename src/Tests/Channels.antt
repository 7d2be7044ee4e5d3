-- ===== src/Tests/Channels.antt =====
-- The feeds of the villa's unit.
use sambung.Channels.Keeps.{connected, all_synced, disconnected}
use sambung.Common.{◌+◌, ◌≡◌, refl, String, none, length}
use sambung.Db.Schema.{Db, airbnb, vrbo}
use sambung.Db.Tx.{err, committed, Error, channel_already_connected}
use sambung.ChannelSync.{fetched, sync_connection}
use sambung.Channels.{connect, disconnect, sync_all}
use sambung.Channels.Run.{AreWired, start, next, ChannelRun-AreWired}
use sambung.Tests.Data.{tables, tables-IsConsistent}
use sambung.Tests.ChannelSync.{events, parse}

abbrev url : String
url = "https://airbnb.example/10.ics"

abbrev wired : Db
wired = committed tables (connect 7 2000 5 10 airbnb url none tables)

abbrev pulled : Db
pulled = (sync_all (λ u. fetched events) parse 7 3000 (λ k n. 200 + n) wired).1

-- A second feed of the channel is refused, one of another channel is not; a pull counts what it does.
connect_test :
    (connect 7 2000 6 10 airbnb url none wired ≡ err channel_already_connected)
    × (length (committed wired (connect 7 2000 6 10 vrbo url none wired)).connections ≡ 2)
    × (connect 8 2000 6 10 vrbo url none wired ≡ err Error.not_found)
    × ((sync_all (λ u. fetched events) parse 7 3000 (λ k n. 200 + n) wired).0.conflicts ≡ 1)
    × (length (committed pulled (disconnect 7 5 pulled)).bookings ≡ 3)
    × (length (committed pulled (disconnect 7 5 pulled)).conflicts ≡ 0)
unfolding connect sync_all disconnect sync_connection sambung.ChannelSync.resolve_time_zone
    sambung.ChannelSync.upsert_event sambung.Db.Bookings.row_check sambung.Db.Bookings.same_import
    sambung.Db.Bookings.insert_booking sambung.Db.Bookings.clash sambung.Db.Bookings.unit_fk
    sambung.ChannelSync.stamp_ok sambung.ChannelSync.close_healed sambung.ChannelSync.cancel_absent
connect_test = (refl, refl, refl, refl, refl, refl)

tables-AreWired : AreWired tables
tables-AreWired = record { consistent = tables-IsConsistent; one_feed = tt }

ChannelRun-AreWired_example : AreWired (committed pulled (disconnect 7 5 pulled))
ChannelRun-AreWired_example = ChannelRun-AreWired parse tables-AreWired (
    next
      (next (next start (connected 7 2000 5 10 airbnb url none))
        (all_synced (λ u. fetched events) 7 3000 (λ k n. 200 + n)))
      (disconnected 7 5))
