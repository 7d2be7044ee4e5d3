-- ===== src/ChannelSync/Table.antt =====
-- A sync keeps the booking table consistent (apps/api/src/channel-sync/ical-import.service.ts).
use sambung.Common.{
  some_inj, ℕ, ◌≡◌, refl, sym, ◌∙◌, subst, inl, inr, String, Bool, true, false, ◌||◌, Option, none,
  some, List, [], ◌∷◌, ◌==◌, if◌then◌else◌, find, arith, Bool-cases, ==_iff,
}
use sambung.Db.Tx.{committed, ◌>>=◌, query, modify}
use sambung.Db.Schema.{
  Booking, BookingStatus, occupying, UnitRow, ChannelConnection, SyncConflict, Db,
}
use sambung.Db.Keeps.{Keeps, keeps_rules}
use sambung.Db.Bookings.{clash, clashes, same_import, unit_fk}
use sambung.Db.Overlap.{NoOverlap, UniqueIds, OwnUnits, has_id, clash_comm, IsConsistent}
use sambung.Booking.Invariant.{IsConsistent-BookingWrites}
use sambung.ChannelSync.{
  is_absent, ImportedEvent, imported_row, moved, others, replace, on_conflict, upsert_event,
  file_conflict, insert_conflict, refresh_conflict, cancel_absent, close_healed, stamp_ok,
  mark_error, ParseResult, Fetched, sync_connection,
}
use sambung.ChannelSync.Keeps.{refuse-Keeps, SyncWrites, sync_connection-keeps}

others-absent : (id : ℕ) (bs : List Booking) → has_id id bs ≡ false → others id bs ≡ bs
others-absent id [] h = refl
others-absent id (b ∷ bs) h = ground (arith, others-absent id bs)

replace-absent :
    (id : ℕ) (b : Booking) (bs : List Booking) → has_id id bs ≡ false → replace id b bs ≡ bs
replace-absent id b [] h = refl
replace-absent id b (c ∷ cs) h = ground (arith, replace-absent id b cs)

has_id-replace :
    (k id : ℕ) (b : Booking) (bs : List Booking)
    → b.id ≡ id
    → has_id k (replace id b bs) ≡ has_id k bs
has_id-replace k id b [] e = refl
has_id-replace k id b (c ∷ cs) e = ground (arith, has_id-replace k id b cs e)

replaced_id : (id : ℕ) (b c : Booking) → b.id ≡ id → (if c.id == id then b else c).id ≡ c.id
replaced_id id b c e = elim (Bool-cases (c.id == id)) [
  | inl y ↦ rw y (e ∙ sym ((==_iff c.id id).0 y))
  | inr n ↦ rw n refl
]

UniqueIds-replace :
    (id : ℕ) (b : Booking) (bs : List Booking)
    → b.id ≡ id
    → UniqueIds bs
    → UniqueIds (replace id b bs)
UniqueIds-replace id b [] e u = tt
UniqueIds-replace id b (c ∷ cs) e u =
    (rw (replaced_id id b c e, has_id-replace c.id id b cs e) u.0, UniqueIds-replace id b cs e u.1)

clashes-replace :
    (c : Booking) (id : ℕ) (b : Booking) (bs : List Booking)
    → clash c b ≡ false
    → clashes c bs ≡ false
    → clashes c (replace id b bs) ≡ false
clashes-replace c id b [] h k = refl
clashes-replace c id b (d ∷ ds) h k = ground (arith, clashes-replace c id b ds h)

NoOverlap-replace :
    (id : ℕ) (b : Booking) (bs : List Booking)
    → UniqueIds bs
    → NoOverlap bs
    → clashes b (others id bs) ≡ false
    → NoOverlap (replace id b bs)
NoOverlap-replace id b [] u n h = tt
NoOverlap-replace id b (c ∷ cs) u n h = elim (Bool-cases (c.id == id)) [
  | inl y ↦
      let absent : has_id id cs ≡ false = rw (sym ((==_iff c.id id).0 y)) u.0 in
      rw (y, replace-absent id b cs absent) (rw (y, others-absent id cs absent) at h, n.1)
  | inr x ↦
      let apart : (clash b c || clashes b (others id cs)) ≡ false = rw x at h in
      rw x (
        clashes-replace c id b cs (clash_comm c b ∙ ground (arith, apart)) n.0,
        NoOverlap-replace id b cs u.1 n.1 (ground (arith, apart)),
      )
]

OwnUnits-replace :
    (units : List UnitRow) (id : ℕ) (b : Booking) (bs : List Booking)
    → unit_fk units b ≡ true
    → OwnUnits units bs
    → OwnUnits units (replace id b bs)
OwnUnits-replace units id b [] h own = tt
OwnUnits-replace units id b (c ∷ cs) h own = (one, OwnUnits-replace units id b cs h own.1)
  where
    one : unit_fk units (if c.id == id then b else c) ≡ true
    one = elim (Bool-cases (c.id == id)) [ inl y ↦ rw y h | inr n ↦ rw n own.0 ]

own-find :
    (units : List UnitRow) (q : Booking → Bool) (bs : List Booking) {b : Booking}
    → OwnUnits units bs
    → find q bs ≡ some b
    → unit_fk units b ≡ true
own-find units q [] own e = cc
own-find units q (c ∷ cs) own e = elim (Bool-cases (q c)) [
  | inl y ↦ subst (λ d. unit_fk units d ≡ true) (some_inj.0 (rw y at e)) own.0
  | inr n ↦ own-find units q cs own.1 (rw n at e)
]

-- A row that moves to free nights.
replace-IsConsistent :
    (b : Booking) (event : ImportedEvent) (db : Db)
    → IsConsistent db
    → unit_fk db.units b ≡ true
    → clashes (moved event b) (others b.id db.bookings) ≡ false
    → IsConsistent (record db { bookings = replace b.id (moved event b) db.bookings })
unfolding unit_fk
replace-IsConsistent b event db h own free = record {
  unique_ids = UniqueIds-replace b.id (moved event b) db.bookings refl h.unique_ids;
  no_overlap = NoOverlap-replace b.id (moved event b) db.bookings h.unique_ids h.no_overlap free;
  own_units = OwnUnits-replace db.units b.id (moved event b) db.bookings own h.own_units;
}

-- What the connections and the conflicts hold does not matter to the booking table.
same_tables :
    (db after : Db)
    → IsConsistent db
    → after.bookings ≡ db.bookings
    → after.units ≡ db.units
    → IsConsistent after
same_tables db after h bookings units = record {
  unique_ids = rw bookings h.unique_ids;
  no_overlap = rw bookings h.no_overlap;
  own_units = rw (bookings, units) h.own_units;
}

adds :
    (c : SyncConflict)
    → Keeps IsConsistent (modify λ db. record db { conflicts = c ∷ db.conflicts })
adds c = record { at = λ db h. same_tables db _ h refl refl }

inserts-Keeps :
    (row : Booking) (event : ImportedEvent) → Keeps IsConsistent (on_conflict row event none)
unfolding on_conflict
inserts-Keeps row event = search (keeps_rules, IsConsistent-BookingWrites.inserts) depth 6

pub existing-keeps :
    (row : Booking) (event : ImportedEvent) (db : Db) (o : Option Booking)
    → find (same_import row) db.bookings ≡ o
    → IsConsistent db
    → IsConsistent (committed db (on_conflict row event o db))
unfolding on_conflict
existing-keeps row event db none e h = (inserts-Keeps row event).at db h
existing-keeps row event db (some b) e h =
    elim (Bool-cases (clashes (moved event b) (others b.id db.bookings))) [
      | inl y ↦ rw y h
      | inr n ↦ rw n (
          replace-IsConsistent b event db h
            (own-find db.units (same_import row) db.bookings h.own_units e) n)
    ]

module _ (conn : ChannelConnection) where
  arbitrated :
      (id : ℕ) (event : ImportedEvent)
      → Keeps IsConsistent (
          query (λ db. find (same_import (imported_row id conn event)) db.bookings) >>= λ existing.
          on_conflict (imported_row id conn event) event existing)
  arbitrated id event = record {
    at = λ db h. existing-keeps (imported_row id conn event) event db _ refl h;
  }

  upserts : (id : ℕ) (event : ImportedEvent) → Keeps IsConsistent (upsert_event id conn event)
  unfolding upsert_event
  upserts id event = search (keeps_rules, refuse-Keeps, arbitrated) depth 8

  refreshes :
      (event : ImportedEvent) (now : ℕ) → Keeps IsConsistent (refresh_conflict conn event now)
  unfolding refresh_conflict
  refreshes event now = record { at = λ db h. same_tables db _ h refl refl }

  stores : (c : SyncConflict) → Keeps IsConsistent (insert_conflict c)
  unfolding insert_conflict
  stores c = search (keeps_rules, adds) depth 6

  files :
      (row : ℕ) (event : ImportedEvent) (now : ℕ)
      → Keeps IsConsistent (file_conflict row conn event now)
  unfolding file_conflict
  files row event now = search (keeps_rules, refreshes, stores) depth 8

  cancels :
      (events : List ImportedEvent) (db : Db)
      → IsConsistent db
      → IsConsistent (cancel_absent conn events db)
  unfolding cancel_absent
  cancels [] db h = h
  cancels (e ∷ es) db h =
      IsConsistent-BookingWrites.frees (is_absent conn (e ∷ es)) BookingStatus.cancelled
        (unfold occupying in refl) db h

  closes :
      (events : List ImportedEvent) (uids : List String) (now : ℕ) (db : Db)
      → IsConsistent db
      → IsConsistent (close_healed conn events uids now db)
  unfolding close_healed
  closes [] uids now db h = h
  closes (e ∷ es) uids now db h = same_tables db _ h refl refl

  pub IsConsistent-SyncWrites : SyncWrites conn IsConsistent
  unfolding stamp_ok mark_error
  IsConsistent-SyncWrites = record {
    upserts = upserts;
    files = files;
    cancels = cancels;
    closes = closes;
    stamps = λ now db h. same_tables db _ h refl refl;
    marks = λ message db h. same_tables db _ h refl refl;
  }

  -- A pull of a channel's feed, whatever the fetch and the parser return, keeps the booking table
  -- consistent: no two bookings that occupy a unit overlap, ids are unique, and every booking stands
  -- in a unit of its own tenant.
  pub sync_connection-IsConsistent :
      {Body : Type 0} (fetch_feed : String → Fetched Body)
      (parse_calendar : Body → String → ParseResult) (now : ℕ) (ids : ℕ → ℕ) (db : Db)
      → IsConsistent db
      → IsConsistent (sync_connection fetch_feed parse_calendar conn now ids db).1
  sync_connection-IsConsistent fetch_feed parse_calendar now ids db h =
      sync_connection-keeps IsConsistent-SyncWrites fetch_feed parse_calendar now ids db h
