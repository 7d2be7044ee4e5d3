-- ===== src/Units/History.antt =====
-- The requests of System, the writes of the units, and the connects, disconnects and syncs of the
-- channels, one after another in any order.
use sambung.Channels.Run.{IsConsistent-ChannelWrites}
use sambung.Channels.Keeps.{ChannelWrites, ChannelStep, ChannelStep-keeps}
use sambung.Channels.{delete_connection}
use sambung.ChannelSync.Blind.{blind-SyncWrites}
use sambung.ChannelSync.{ParseResult, stamp_ok, mark_error}
use sambung.Common.{ℕ, ◌+◌, ◌≡◌, String, Bool, List, refl, subst, sym}
use sambung.Common.Int.{pos}
use sambung.Stay.{quote_total_idr}
use sambung.Db.Schema.{Booking, Db}
use sambung.Db.Tx.{Result, ok, err, committed}
use sambung.Db.Bookings.{insert_booking}
use sambung.Db.Keeps.{Keeps}
use sambung.Db.Overlap.{IsConsistent, insert_booking-Inserted}
use sambung.Availability.{find_price_overrides}
use sambung.Payments.Keeps.{Writes}
use sambung.Payments.Webhook.{close_payment, confirm_booking}
use sambung.System.{Step}
use sambung.System.Consistent.{IsConsistent-Writes, Step-keeps}
use sambung.Units.{UnitStep}
use sambung.Units.Prices.{OverridesApart, stay_price, quote-stay_price}
use sambung.Units.Ledger.{
  UnitWrites, UnitStep-keeps, OverridesApart-UnitWrites, IsConsistent-UnitWrites,
}

insert_booking-Apart :
    (b : Booking) → Keeps (λ db. OverridesApart db.price_overrides) (insert_booking b)
insert_booking-Apart b = record { at = λ db h. inserted db (insert_booking b db) refl h }
  where
    inserted :
        (db : Db) (r : Result (Booking × Db))
        → insert_booking b db ≡ r
        → OverridesApart db.price_overrides
        → OverridesApart (committed db r).price_overrides
    inserted db (ok (x, after)) e h =
        subst (λ d. OverridesApart d.price_overrides) (sym (insert_booking-Inserted b db e).added) h
    inserted db (err x) e h = h

OverridesApart-Writes : Writes (λ db. OverridesApart db.price_overrides)
unfolding insert_booking close_payment confirm_booking
OverridesApart-Writes = record {
  bookings = record { inserts = insert_booking-Apart; frees = λ q status e db h. h };
  webhook = record { events = λ es db h. h; closes = λ id status db h. h; confirms = λ id db h. h };
  pays = λ ps db h. h;
}

OverridesApart-ChannelWrites : ChannelWrites (λ db. OverridesApart db.price_overrides)
unfolding delete_connection stamp_ok mark_error
OverridesApart-ChannelWrites = record {
  inserts = λ c db e h. h;
  drops = λ tenant id db h. h;
  syncs = λ conn.
      blind-SyncWrites (λ bs db h. h) (λ cs db h. h) conn (λ now db h. h) (λ message db h. h);
}

module _ (Body : Type 0) {Feed : Type 0} (is_url : String → Bool)
    (parse_calendar : Feed → String → ParseResult) where
  pub data History (db : Db) : Db → Type 0 where
    start : History db db
    request :
        {mid after : Db} {notified : List ℕ}
        → History db mid
        → Step Body is_url mid notified after
        → History db after
    inventory : {mid after : Db} → History db mid → UnitStep mid after → History db after
    channel :
        {mid after : Db} → History db mid → ChannelStep parse_calendar mid after → History db after

module _ {Body Feed : Type 0} (is_url : String → Bool)
    (parse_calendar : Feed → String → ParseResult) where
  History-keeps :
      {P : Db → Type 0} (w : Writes P) (u : UnitWrites P) (c : ChannelWrites P) {db after : Db}
      → History Body is_url parse_calendar db after
      → P db
      → P after
  History-keeps w u c start h = h
  History-keeps w u c (request run step) h = Step-keeps is_url w step (History-keeps w u c run h)
  History-keeps w u c (inventory run step) h = UnitStep-keeps u step (History-keeps w u c run h)
  History-keeps w u c (channel run step) h = ChannelStep-keeps c step (History-keeps w u c run h)

  -- From tables whose price overrides share no night of a unit, after any sequence of the requests
  -- of bookings and payments, of the writes of units and overrides, and of the connects, disconnects
  -- and syncs of channels, the total that a quote computes for a stay of any number of nights, from
  -- the overrides that it finds, sorts and clips, is the sum of its nights, each at the price of the
  -- override row that has it and else at the base price.
  pub History-stay_price :
      {db after : Db} (tenant unit base from n : ℕ)
      → OverridesApart db.price_overrides
      → History Body is_url parse_calendar db after
      → quote_total_idr base from
          (from + n)
          (find_price_overrides tenant unit from (from + n) after)
        ≡ pos (stay_price tenant unit base after.price_overrides from n)
  History-stay_price {after = after} tenant unit base from n h run =
      quote-stay_price tenant unit base from n after (
        History-keeps OverridesApart-Writes OverridesApart-UnitWrites OverridesApart-ChannelWrites
          run h)

  -- The same sequences keep the booking table consistent: booking ids are unique, no two occupying
  -- bookings of a unit overlap, and every booking keeps a unit of its tenant, though units are
  -- removed, connections are cut and feeds are pulled.
  pub History-IsConsistent :
      {db after : Db}
      → IsConsistent db
      → History Body is_url parse_calendar db after
      → IsConsistent after
  History-IsConsistent h run =
      History-keeps IsConsistent-Writes IsConsistent-UnitWrites IsConsistent-ChannelWrites run h
