-- ===== src/Channels/Run.antt =====
-- Any sequence of connects, disconnects and syncs (apps/api/src/channel-sync/channels.service.ts).
use sambung.Channels.Keeps.{ChannelWrites, ChannelStep, ChannelStep-keeps}
use sambung.Units.Ledger.{without_connection-Narrows}
use sambung.Common.{
  ℕ, ◌≡◌, String, false, none, some, any, Bool-cases, inl, inr, if◌then◌else◌, ◌==◌,
}
use sambung.Db.Schema.{Booking, ChannelConnection, Db}
use sambung.Db.Tx.{channel_connection_pkey, channel_connection_unit_channel_uniq}
use sambung.Db.Overlap.{IsConsistent, Narrows, Narrows-refl, update-IsConsistent}
use sambung.ChannelSync.{ParseResult}
use sambung.ChannelSync.Table.{IsConsistent-SyncWrites}
use sambung.Units.{same_connection, without_connection}
use sambung.Channels.{is_feed, connection_check, delete_connection}
use sambung.Channels.OneFeed.{OneFeed, select-OneFeed, OneFeed-SyncWrites}

connection_check-none :
    (c : ChannelConnection) (db : Db)
    → connection_check c db ≡ none
    → any (is_feed c.unit_id c.channel) db.connections ≡ false
unfolding connection_check
connection_check-none c db e = elim (Bool-cases (any (λ d. d.id == c.id) db.connections)) [
  | inl y ↦ (let f : some channel_connection_pkey ≡ none = rw y at e in cc)
  | inr a ↦ elim (Bool-cases (any (is_feed c.unit_id c.channel) db.connections)) [
    | inl y ↦ (let f : some channel_connection_unit_channel_uniq ≡ none = rw (a, y) at e in cc)
    | inr b ↦ b
  ]
]

cut_loose-Narrows :
    (id : ℕ) (b : Booking)
    → Narrows b (if same_connection b.channel_connection_id id then without_connection b else b)
cut_loose-Narrows id b = elim (Bool-cases (same_connection b.channel_connection_id id)) [
  | inr n ↦ rw n (Narrows-refl b)
  | inl y ↦ rw y (without_connection-Narrows b)
]

pub IsConsistent-ChannelWrites : ChannelWrites IsConsistent
unfolding delete_connection
IsConsistent-ChannelWrites = record {
  inserts = λ c db e h. record {
    unique_ids = h.unique_ids;
    no_overlap = h.no_overlap;
    own_units = h.own_units;
  };
  drops = λ tenant id db h.
      let kept =
        update-IsConsistent
          (λ b. if same_connection b.channel_connection_id id then without_connection b else b)
          (cut_loose-Narrows id) db h in
      record {
        unique_ids = kept.unique_ids;
        no_overlap = kept.no_overlap;
        own_units = kept.own_units;
      };
  syncs = IsConsistent-SyncWrites;
}

OneFeed-ChannelWrites : ChannelWrites (λ db. OneFeed db.connections)
unfolding delete_connection
OneFeed-ChannelWrites = record {
  inserts = λ c db e h. (connection_check-none c db e, h);
  drops = λ tenant id db h. select-OneFeed _ db.connections h;
  syncs = OneFeed-SyncWrites;
}

-- The booking table and the feeds.
pub record AreWired (db : Db) : Type 0 where
  pub consistent : IsConsistent db
  pub one_feed : OneFeed db.connections

module _ {Body : Type 0} (parse_calendar : Body → String → ParseResult) where
  pub data ChannelRun (db : Db) : Db → Type 0 where
    start : ChannelRun db db
    next :
        {mid after : Db}
        → ChannelRun db mid
        → ChannelStep parse_calendar mid after
        → ChannelRun db after

  ChannelRun-keeps :
      {P : Db → Type 0} → ChannelWrites P → {db after : Db} → ChannelRun db after → P db → P after
  ChannelRun-keeps w start h = h
  ChannelRun-keeps w (next run step) h = ChannelStep-keeps w step (ChannelRun-keeps w run h)

  -- Whatever the fetches and the parser return, any sequence of connects, disconnects and syncs of
  -- one or of all connections keeps the booking table consistent and at most one connection for each
  -- unit and channel.
  pub ChannelRun-AreWired : {db after : Db} → AreWired db → ChannelRun db after → AreWired after
  ChannelRun-AreWired h run = record {
    consistent = ChannelRun-keeps IsConsistent-ChannelWrites run h.consistent;
    one_feed = ChannelRun-keeps OneFeed-ChannelWrites run h.one_feed;
  }
