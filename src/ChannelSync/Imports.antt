-- ===== src/ChannelSync/Imports.antt =====
-- What a sync leaves alone (apps/api/src/channel-sync/ical-import.service.ts): the bookings that it
-- did not import.
use sambung.Common.{
  find_sound, ℕ, ◌≡◌, refl, sym, ◌∙◌, subst, inl, inr, String, Bool, true, false, not, ◌&&◌, Option,
  none, some, List, [], ◌∷◌, ◌==◌, find, any, select, arith, Bool-cases, ==_iff, some_inj,
}
use sambung.Db.Tx.{committed, Result, ok, err, ◌>>=◌, query}
use sambung.Db.Schema.{Booking, BookingStatus, ChannelConnection, Db}
use sambung.Db.Keeps.{Keeps, keeps_rules}
use sambung.Db.Bookings.{some_eq, clashes, same_import, insert_booking, update_where}
use sambung.Db.Overlap.{UniqueIds, has_id, IsConsistent, insert_booking-Inserted}
use sambung.Booking.{set_status}
use sambung.ChannelSync.{
  ImportedEvent, imported_row, moved, others, replace, on_conflict, upsert_event, is_absent,
  file_conflict, refresh_conflict, insert_conflict, cancel_absent, close_healed, stamp_ok,
  mark_error, ParseResult, Fetched, sync_connection,
}
use sambung.ChannelSync.Keeps.{refuse-Keeps, SyncWrites, sync_connection-keeps}
use sambung.ChannelSync.Table.{existing-keeps, IsConsistent-SyncWrites}

-- Not imported over this connection.
abbrev pub is_foreign : ChannelConnection → Booking → Bool
is_foreign conn b = not (some_eq b.channel_connection_id (some conn.id))

abbrev pub foreigners : ChannelConnection → List Booking → List Booking
foreigners conn bs = select (is_foreign conn) bs

-- No foreign row has that id.
abbrev foreign_id : ChannelConnection → ℕ → List Booking → Bool
foreign_id conn id bs = any (λ c. c.id == id && is_foreign conn c) bs

foreign_id-absent :
    (conn : ChannelConnection) (id : ℕ) (bs : List Booking)
    → has_id id bs ≡ false
    → foreign_id conn id bs ≡ false
foreign_id-absent conn id [] h = refl
foreign_id-absent conn id (b ∷ bs) h = ground (arith, foreign_id-absent conn id bs)

foreign_id-replace :
    (conn : ChannelConnection) (id : ℕ) (b : Booking) (bs : List Booking)
    → is_foreign conn b ≡ false
    → foreign_id conn id bs ≡ false
    → foreigners conn (replace id b bs) ≡ foreigners conn bs
foreign_id-replace conn id b [] f h = refl
foreign_id-replace conn id b (c ∷ cs) f h = ground (arith, foreign_id-replace conn id b cs)

update-foreigners :
    (conn : ChannelConnection) (q : Booking → Bool) (status : BookingStatus)
    → ((b : Booking) → q b ≡ true → is_foreign conn b ≡ false)
    → (bs : List Booking)
    → foreigners conn (update_where q (set_status status) bs) ≡ foreigners conn bs
update-foreigners conn q status own [] = refl
update-foreigners conn q status own (b ∷ bs) = elim (Bool-cases (q b)) [
  | inl y ↦ rw (y, own b y, update-foreigners conn q status own bs) refl
  | inr n ↦ rw (n, update-foreigners conn q status own bs) refl
]

has_id-find :
    (q : Booking → Bool) (bs : List Booking) {b : Booking}
    → find q bs ≡ some b
    → has_id b.id bs ≡ true
has_id-find q [] e = cc
has_id-find q (c ∷ cs) {b} e = elim (Bool-cases (q c)) [
  | inl y ↦
      subst (λ d. has_id d.id (c ∷ cs) ≡ true) (some_inj.0 (rw y at e))
        (rw ((==_iff c.id c.id).1 refl) refl)
  | inr n ↦ let rest : has_id b.id cs ≡ true = has_id-find q cs (rw n at e) in ground (arith, rest)
]

foreign_id-find :
    (conn : ChannelConnection) (q : Booking → Bool) (bs : List Booking) {b : Booking}
    → UniqueIds bs
    → find q bs ≡ some b
    → is_foreign conn b ≡ false
    → foreign_id conn b.id bs ≡ false
foreign_id-find conn q [] u e f = refl
foreign_id-find conn q (c ∷ cs) {b} u e f = elim (Bool-cases (q c)) [
  | inl y ↦
      let same : c ≡ b = some_inj.0 (rw y at e) in
      let own : is_foreign conn c ≡ false = subst (λ d. is_foreign conn d ≡ false) (sym same) f in
      subst (λ d. foreign_id conn d.id (c ∷ cs) ≡ false) same
        (rw ((==_iff c.id c.id).1 refl, own, foreign_id-absent conn c.id cs u.0) refl)
  | inr n ↦
      let e' : find q cs ≡ some b = rw n at e in
      let rest : foreign_id conn b.id cs ≡ false = foreign_id-find conn q cs u.1 e' f in
      let held : has_id b.id cs ≡ true = has_id-find q cs e' in
      let absent : has_id c.id cs ≡ false = u.0 in
      elim (Bool-cases (c.id == b.id)) [
        | inl k ↦ let absent' : has_id b.id cs ≡ false = rw ((==_iff c.id b.id).0 k) at absent in cc
        | inr k ↦ rw (k, rest) refl
      ]
]

some_eq-swap : (n : ℕ) (o : Option ℕ) → some_eq (some n) o ≡ true → some_eq o (some n) ≡ true
some_eq-swap n none h = h
some_eq-swap n (some m) h = ground arith

-- The booking table is consistent, and `bs` are its rows that the connection did not import.
abbrev Untouched : ChannelConnection → List Booking → Db → Type 0
Untouched conn bs db = IsConsistent db × (foreigners conn db.bookings ≡ bs)

module _ (conn : ChannelConnection) (bs : List Booking) where
  own_row : (id : ℕ) (event : ImportedEvent) → is_foreign conn (imported_row id conn event) ≡ false
  own_row id event = rw ((==_iff conn.id conn.id).1 refl) refl

  found_own :
      (id : ℕ) (event : ImportedEvent) (db : Db) {b : Booking}
      → find (same_import (imported_row id conn event)) db.bookings ≡ some b
      → is_foreign conn b ≡ false
  unfolding same_import
  found_own id event db {b} e =
      let same : same_import (imported_row id conn event) b ≡ true =
        find_sound (same_import (imported_row id conn event)) db.bookings e in
      rw (some_eq-swap conn.id b.channel_connection_id (ground (arith, same))) refl

  existing-foreigners :
      (id : ℕ) (event : ImportedEvent) (db : Db) (o : Option Booking)
      → find (same_import (imported_row id conn event)) db.bookings ≡ o
      → Untouched conn bs db
      → foreigners conn
          (committed db (on_conflict (imported_row id conn event) event o db)).bookings
        ≡ bs
  unfolding on_conflict
  existing-foreigners id event db none e h =
      inserted (insert_booking (imported_row id conn event) db) refl
    where
      inserted :
          (r : Result (Booking × Db))
          → insert_booking (imported_row id conn event) db ≡ r
          → foreigners conn
              (committed db (on_conflict (imported_row id conn event) event none db)).bookings
            ≡ bs
      inserted (ok (x, after)) e' =
          rw
            (
              e',
              (insert_booking-Inserted (imported_row id conn event) db e').added,
              own_row id event,
            )
            h.1
      inserted (err x) e' = rw e' h.1
  existing-foreigners id event db (some b) e h =
      elim (Bool-cases (clashes (moved event b) (others b.id db.bookings))) [
        | inl y ↦ rw y h.1
        | inr n ↦
            let own : is_foreign conn b ≡ false = found_own id event db e in
            rw n (
              foreign_id-replace conn b.id (moved event b) db.bookings own
                (foreign_id-find conn _ db.bookings h.0.unique_ids e own)
              ∙ h.1)
      ]

  arbitrated :
      (id : ℕ) (event : ImportedEvent)
      → Keeps (Untouched conn bs) (
          query (λ db. find (same_import (imported_row id conn event)) db.bookings) >>= λ existing.
          on_conflict (imported_row id conn event) event existing)
  arbitrated id event = record {
    at = λ db h. (
      existing-keeps (imported_row id conn event) event db _ refl h.0,
      existing-foreigners id event db _ refl h,
    );
  }

  upserts :
      (id : ℕ) (event : ImportedEvent) → Keeps (Untouched conn bs) (upsert_event id conn event)
  unfolding upsert_event
  upserts id event = search (keeps_rules, refuse-Keeps, arbitrated) depth 8

  filed :
      (row : ℕ) (event : ImportedEvent) (now : ℕ) (db : Db)
      → (committed db (file_conflict row conn event now db)).bookings ≡ db.bookings
  unfolding file_conflict refresh_conflict insert_conflict
  filed row event now db = ground arith

  is_absent-own :
      (events : List ImportedEvent) (b : Booking)
      → is_absent conn events b ≡ true
      → is_foreign conn b ≡ false
  unfolding is_absent
  is_absent-own events b h = ground arith

  cancelled :
      (events : List ImportedEvent) (db : Db)
      → foreigners conn (cancel_absent conn events db).bookings ≡ foreigners conn db.bookings
  unfolding cancel_absent
  cancelled [] db = refl
  cancelled (e ∷ es) db =
      update-foreigners conn (is_absent conn (e ∷ es)) BookingStatus.cancelled
        (is_absent-own (e ∷ es)) db.bookings

  closed :
      (events : List ImportedEvent) (uids : List String) (now : ℕ) (db : Db)
      → (close_healed conn events uids now db).bookings ≡ db.bookings
  unfolding close_healed
  closed [] uids now db = refl
  closed (e ∷ es) uids now db = refl

  Untouched-SyncWrites : SyncWrites conn (Untouched conn bs)
  unfolding stamp_ok mark_error
  Untouched-SyncWrites =
      let w = IsConsistent-SyncWrites conn in
      record {
        upserts = upserts;
        files = λ row event now. record {
          at = λ db h. ((w.files row event now).at db h.0, rw (filed row event now db) h.1);
        };
        cancels = λ events db h. (w.cancels events db h.0, cancelled events db ∙ h.1);
        closes = λ events uids now db h.
            (w.closes events uids now db h.0, rw (closed events uids now db) h.1);
        stamps = λ now db h. (w.stamps now db h.0, h.1);
        marks = λ message db h. (w.marks message db h.0, h.1);
      }

-- From consistent tables, a pull of a channel's feed, whatever the fetch and the parser return,
-- leaves every booking that it did not import over that connection as it was, in the same order:
-- none is cancelled, moved or added.
pub sync_connection-foreigners :
    (conn : ChannelConnection) {Body : Type 0} (fetch_feed : String → Fetched Body)
    (parse_calendar : Body → String → ParseResult) (now : ℕ) (ids : ℕ → ℕ) (db : Db)
    → IsConsistent db
    → foreigners conn (sync_connection fetch_feed parse_calendar conn now ids db).1.bookings
      ≡ foreigners conn db.bookings
sync_connection-foreigners conn fetch_feed parse_calendar now ids db h =
    (sync_connection-keeps (Untouched-SyncWrites conn (foreigners conn db.bookings)) fetch_feed
      parse_calendar now ids db (h, refl)).1
