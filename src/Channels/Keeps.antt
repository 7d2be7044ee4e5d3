-- ===== src/Channels/Keeps.antt =====
-- The requests of apps/api/src/channel-sync/channels.service.ts that write, and what they keep:
-- whatever each of their writes keeps.
use sambung.Common.{
  ℕ, ◌+◌, ◌≡◌, String, Option, none, List, [], ◌∷◌, find, select, order_by, Option-cases, inl, inr,
  ◌==◌, length,
}
use sambung.Db.Schema.{BookingSource, ChannelConnection, Db}
use sambung.Db.Tx.{modify, committed}
use sambung.Db.Keeps.{Keeps, keeps_rules}
use sambung.ChannelSync.{Fetched, ParseResult}
use sambung.ChannelSync.Keeps.{SyncWrites, sync_connection-keeps}
use sambung.Channels.{
  connection_check, insert_connection, connect, delete_connection, disconnect, sync_now, sync_each,
  sync_all, SyncTotal, is_connection_of,
}

-- Kept by a new connection, by the removal of one, and by the writes of a sync.
pub record ChannelWrites (P : Db → Type 0) : Type 0 where
  pub inserts :
      (c : ChannelConnection) (db : Db)
      → connection_check c db ≡ none
      → P db
      → P (record db { connections = c ∷ db.connections })
  pub drops : (tenant id : ℕ) (db : Db) → P db → P (delete_connection tenant id db)
  pub syncs : (conn : ChannelConnection) → SyncWrites conn P

module _ {Body : Type 0} (parse_calendar : Body → String → ParseResult) where
  -- Each sync fetches anew.
  pub data ChannelStep (db : Db) : Db → Type 0 where
    connected :
        (tenant now id unit : ℕ) (channel : BookingSource) (url : String) (probe : Option String)
        → ChannelStep db (committed db (connect tenant now id unit channel url probe db))
    disconnected : (tenant id : ℕ) → ChannelStep db (committed db (disconnect tenant id db))
    synced :
        (fetch_feed : String → Fetched Body) (tenant id now : ℕ) (ids : ℕ → ℕ)
        → ChannelStep db (sync_now fetch_feed parse_calendar tenant id now ids db).1
    all_synced :
        (fetch_feed : String → Fetched Body) (tenant now : ℕ) (ids : ℕ → ℕ → ℕ)
        → ChannelStep db (sync_all fetch_feed parse_calendar tenant now ids db).1

module _ {P : Db → Type 0} (w : ChannelWrites P) where
  insert_connection-Keeps : (c : ChannelConnection) → Keeps P (insert_connection c)
  unfolding insert_connection
  insert_connection-Keeps c = record {
    at = λ db h. elim (Option-cases (connection_check c db)) [
      | inl n ↦ rw n (w.inserts c db n h)
      | inr (r, e) ↦ rw e h
    ];
  }

  connect-Keeps :
      (tenant now id unit : ℕ) (channel : BookingSource) (url : String) (probe : Option String)
      → Keeps P (connect tenant now id unit channel url probe)
  unfolding connect
  connect-Keeps tenant now id unit channel url probe =
      search (keeps_rules, insert_connection-Keeps) depth 12

  delete_connection-Keeps : (tenant id : ℕ) → Keeps P (modify (delete_connection tenant id))
  delete_connection-Keeps tenant id = record { at = w.drops tenant id }

  disconnect-Keeps : (tenant id : ℕ) → Keeps P (disconnect tenant id)
  unfolding disconnect
  disconnect-Keeps tenant id = search (keeps_rules, delete_connection-Keeps) depth 12

  module _ {Body : Type 0} (fetch_feed : String → Fetched Body)
      (parse_calendar : Body → String → ParseResult) where
    sync_now-keeps :
        (tenant id now : ℕ) (ids : ℕ → ℕ) (db : Db)
        → P db
        → P (sync_now fetch_feed parse_calendar tenant id now ids db).1
    unfolding sync_now
    sync_now-keeps tenant id now ids db h =
        elim (Option-cases (find (is_connection_of tenant id) db.connections)) [
          | inl n ↦ rw n h
          | inr (conn, e) ↦
              rw e (sync_connection-keeps (w.syncs conn) fetch_feed parse_calendar now ids db h)
        ]

    sync_each-keeps :
        (now : ℕ) (ids : ℕ → ℕ → ℕ) (k : ℕ) (conns : List ChannelConnection) (total : SyncTotal)
        (db : Db)
        → P db
        → P (sync_each fetch_feed parse_calendar now ids k conns total db).1
    unfolding sync_each
    sync_each-keeps now ids k [] total db h = h
    sync_each-keeps now ids k (conn ∷ conns) total db h =
        sync_each-keeps now ids (k + 1) conns _ _
          (sync_connection-keeps (w.syncs conn) fetch_feed parse_calendar now (ids k) db h)

    sync_all-keeps :
        (tenant now : ℕ) (ids : ℕ → ℕ → ℕ) (db : Db)
        → P db
        → P (sync_all fetch_feed parse_calendar tenant now ids db).1
    unfolding sync_all
    sync_all-keeps tenant now ids db h =
        let conns =
          order_by (λ c. c.created_at)
            (order_by (λ c. c.id) (select (λ c. c.tenant_id == tenant) db.connections)) in
        sync_each-keeps now ids 0 conns
          (record { feeds = length conns; errored = 0; imported = 0; cancelled = 0; conflicts = 0 })
          db h

  pub ChannelStep-keeps :
      {Body : Type 0} {parse_calendar : Body → String → ParseResult} {db after : Db}
      → ChannelStep parse_calendar db after
      → P db
      → P after
  ChannelStep-keeps {db} (connected tenant now id unit channel url probe) h =
      (connect-Keeps tenant now id unit channel url probe).at db h
  ChannelStep-keeps {db} (disconnected tenant id) h = (disconnect-Keeps tenant id).at db h
  ChannelStep-keeps {parse_calendar} {db} (synced fetch_feed tenant id now ids) h =
      sync_now-keeps fetch_feed parse_calendar tenant id now ids db h
  ChannelStep-keeps {parse_calendar} {db} (all_synced fetch_feed tenant now ids) h =
      sync_all-keeps fetch_feed parse_calendar tenant now ids db h
