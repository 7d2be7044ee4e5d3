-- ===== src/Channels.antt =====
-- The connections of a unit to the booking channels: apps/api/src/channel-sync/channels.service.ts and
-- channels.repository.ts, with the constraints of `channel_connection` (packages/db). The answer of the
-- probe of a feed's URL is an argument, and so are the ids of new rows.
pub mod Keeps
pub mod OneFeed
pub mod Run
use sambung.Common.{
  ℕ, ◌+◌, String, Bool, true, false, not, ◌&&◌, Option, none, some, List, [], ◌∷◌, ◌==◌, find, any,
  select, length, if◌then◌else◌, order_by,
}
use sambung.Db.Schema.{
  BookingSource, direct, airbnb, booking_com, vrbo, manual_block, SyncStatus, ChannelConnection, Db,
}
use sambung.Db.Tx.{
  Constraint, channel_connection_pkey, channel_connection_unit_channel_uniq,
  channel_connection_unit_tenant_fk, not_found, violates, channel_already_connected, Tx, ◌>>=◌,
  ◌>>◌, pure, throw, query, modify, guard,
}
use sambung.Db.Bookings.{update_where}
use sambung.Units.{unit_owned, same_connection, without_connection}
use sambung.ChannelSync.{Fetched, ParseResult, SyncOutcome, sync_connection}

abbrev channel_code : BookingSource → ℕ
channel_code direct = 0
channel_code airbnb = 1
channel_code booking_com = 2
channel_code vrbo = 3
channel_code manual_block = 4

abbrev pub same_channel : BookingSource → BookingSource → Bool
same_channel a b = channel_code a == channel_code b

abbrev pub is_feed : ℕ → BookingSource → ChannelConnection → Bool
is_feed unit channel c = c.unit_id == unit && same_channel c.channel channel

unfoldable pub find_by_unit_and_channel : ℕ → ℕ → BookingSource → Db → Option ChannelConnection
find_by_unit_and_channel tenant unit channel db =
    find (λ c. is_feed unit channel c && c.tenant_id == tenant) db.connections

unfoldable pub connection_check : ChannelConnection → Db → Option Constraint
connection_check c db =
    if any (λ d. d.id == c.id) db.connections
    then some channel_connection_pkey
    else if any (is_feed c.unit_id c.channel) db.connections
    then some channel_connection_unit_channel_uniq
    else if not (unit_owned c.tenant_id c.unit_id db)
    then some channel_connection_unit_tenant_fk
    else none

abbrev pub write_connection : ChannelConnection → Option Constraint → Tx ChannelConnection
write_connection c (some refused) = throw (violates refused)
write_connection c none = do modify λ db. record db { connections = c ∷ db.connections }; pure c

unfoldable pub insert_connection : ChannelConnection → Tx ChannelConnection
unfolding connection_check
insert_connection c = do refused ← query (connection_check c); write_connection c refused

-- `probe.ok` with no message, or the message.
abbrev probed : Option String → ℕ → SyncStatus × Option ℕ
probed none now = (SyncStatus.ok, some now)
probed (some message) now = (SyncStatus.error, none)

abbrev pub is_free : Option ChannelConnection → Bool
is_free none = true
is_free (some c) = false

-- `ChannelsService.connect`
unfoldable pub connect :
    ℕ → ℕ → ℕ → ℕ → BookingSource → String → Option String → Tx ChannelConnection
unfolding insert_connection find_by_unit_and_channel
connect tenant now id unit channel url probe = do
  owned ← query (unit_owned tenant unit)
  guard owned not_found
  existing ← query (find_by_unit_and_channel tenant unit channel)
  guard (is_free existing) channel_already_connected
  insert_connection (record {
    id = id;
    unit_id = unit;
    tenant_id = tenant;
    channel = channel;
    import_ical_url = url;
    last_synced_at = (probed probe now).1;
    last_status = (probed probe now).0;
    last_error = probe;
    created_at = now;
  })

abbrev pub is_connection_of : ℕ → ℕ → ChannelConnection → Bool
is_connection_of tenant id c = c.id == id && c.tenant_id == tenant

unfoldable pub count_imported_bookings : ℕ → ℕ → Db → ℕ
count_imported_bookings tenant id db =
    length (
      select (λ b. same_connection b.channel_connection_id id && b.tenant_id == tenant) db.bookings)

-- `onDelete`: the bookings stay without the connection, its conflicts go.
unfoldable pub delete_connection : ℕ → ℕ → Db → Db
delete_connection tenant id db = record db {
  connections = select (λ c. not (is_connection_of tenant id c)) db.connections;
  conflicts = select (λ c. not (c.channel_connection_id == id)) db.conflicts;
  bookings =
      update_where (λ b. same_connection b.channel_connection_id id) without_connection db.bookings;
}

-- `ChannelsService.disconnect`: how many imported bookings were kept.
unfoldable pub disconnect : ℕ → ℕ → Tx ℕ
unfolding count_imported_bookings delete_connection
disconnect tenant id = do
  found ← query (λ db. any (is_connection_of tenant id) db.connections)
  guard found not_found
  kept ← query (count_imported_bookings tenant id)
  modify (delete_connection tenant id)
  pure kept

pub record SyncTotal : Type 0 where
  pub feeds : ℕ
  pub errored : ℕ
  pub imported : ℕ
  pub cancelled : ℕ
  pub conflicts : ℕ

abbrev errors_of : SyncStatus → ℕ
errors_of SyncStatus.error = 1
errors_of _ = 0

abbrev pub add_outcome : SyncTotal → SyncOutcome → SyncTotal
add_outcome t o = record t {
  errored = t.errored + errors_of o.status;
  imported = t.imported + o.imported;
  cancelled = t.cancelled + o.cancelled;
  conflicts = t.conflicts + o.conflicts;
}

module _ {Body : Type 0} (fetch_feed : String → Fetched Body)
    (parse_calendar : Body → String → ParseResult) where
  -- `syncNow`, none for a connection that is not there.
  abbrev sync_found : ℕ → (ℕ → ℕ) → Db → Option ChannelConnection → Option SyncOutcome × Db
  sync_found now ids db none = (none, db)
  sync_found now ids db (some conn) =
      let r = sync_connection fetch_feed parse_calendar conn now ids db in (some r.0, r.1)

  unfoldable pub sync_now : ℕ → ℕ → ℕ → (ℕ → ℕ) → Db → Option SyncOutcome × Db
  sync_now tenant id now ids db =
      sync_found now ids db (find (is_connection_of tenant id) db.connections)

  -- The loop of `syncAll`: the feed after the next one draws its ids from another supply.
  unfoldable pub sync_each :
      ℕ → (ℕ → ℕ → ℕ) → ℕ → List ChannelConnection → SyncTotal → Db → SyncTotal × Db
  sync_each now ids k [] total db = (total, db)
  sync_each now ids k (conn ∷ conns) total db =
      let r = sync_connection fetch_feed parse_calendar conn now (ids k) db in
      sync_each now ids (k + 1) conns (add_outcome total r.0) r.1

  -- `ChannelsService.syncAll`
  unfoldable pub sync_all : ℕ → ℕ → (ℕ → ℕ → ℕ) → Db → SyncTotal × Db
  unfolding sync_each
  sync_all tenant now ids db =
      let connections =
        order_by (λ c. c.created_at)
          (order_by (λ c. c.id) (select (λ c. c.tenant_id == tenant) db.connections)) in
      sync_each now ids 0 connections
        (record {
          feeds = length connections;
          errored = 0;
          imported = 0;
          cancelled = 0;
          conflicts = 0;
        })
        db
