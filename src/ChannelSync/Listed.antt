-- ===== src/ChannelSync/Listed.antt =====
-- What a healthy pull leaves confirmed (apps/api/src/channel-sync/ical-import.service.ts).
use sambung.Common.{
  any-update, ℕ, ◌≡◌, refl, sym, subst, inl, inr, String, Bool, true, false, not, ◌&&◌, some, List,
  [], ◌∷◌, ◌==◌, str_eq, find, any, arith, Bool-cases, ==_iff, some_inj,
}
use sambung.Db.Schema.{Booking, BookingStatus, is_confirmed, ChannelConnection, Db}
use sambung.Booking.{set_status}
use sambung.ChannelSync.{
  ImportedEvent, is_absent, cancel_absent, close_healed, stamp_ok, finish, import_events,
  reconcile_feed,
}

not-false : (x : Bool) → not x ≡ false → x ≡ true
not-false true h = refl
not-false false h = sym h

-- A row that is found is one of the rows.
find-any :
    (p q : Booking → Bool) (bs : List Booking) {b : Booking}
    → any q bs ≡ false
    → find p bs ≡ some b
    → q b ≡ false
find-any p q [] h e = cc
find-any p q (c ∷ cs) {b} h e = elim (Bool-cases (p c)) [
  | inl y ↦ subst (λ d. q d ≡ false) (some_inj.0 (rw y at e)) (ground (arith, h))
  | inr n ↦ find-any p q cs (ground (arith, h)) (rw n at e)
]

module _ (conn : ChannelConnection) (event : ImportedEvent) (events : List ImportedEvent) where
  cancelled_row :
      (b : Booking) → is_absent conn (event ∷ events) (set_status BookingStatus.cancelled b) ≡ false
  unfolding is_absent
  cancelled_row b = ground arith

  reconciled :
      (now : ℕ) (ids : ℕ → ℕ) (db : Db)
      → any
          (is_absent conn (event ∷ events))
          (reconcile_feed conn now ids (event ∷ events) db).1.bookings
        ≡ false
  unfolding reconcile_feed finish stamp_ok close_healed cancel_absent
  reconciled now ids db =
      any-update _ (is_absent conn (event ∷ events)) _ cancelled_row (λ b h. h)
        (import_events conn now ids 0 (event ∷ events)
          (record { imported = 0; conflicts = 0; not_imported = [] }, db)).1.bookings

  -- After a feed with at least one event is reconciled, a booking that this connection imported and
  -- that is still confirmed has its uid among the events of the feed.
  pub reconcile_feed-listed :
      (now : ℕ) (ids : ℕ → ℕ) (db : Db) (id : ℕ) (uid : String) {b : Booking}
      → find (λ c. c.id == id) (reconcile_feed conn now ids (event ∷ events) db).1.bookings ≡ some b
      → b.channel_connection_id ≡ some conn.id
      → b.tenant_id ≡ conn.tenant_id
      → b.external_uid ≡ some uid
      → is_confirmed b.status ≡ true
      → any (λ e. str_eq e.uid uid) (event ∷ events) ≡ true
  unfolding is_absent
  reconcile_feed-listed now ids db id uid {b} e own tenant named c =
      let present : is_absent conn (event ∷ events) b ≡ false =
        find-any (λ c. c.id == id) (is_absent conn (event ∷ events)) _ (reconciled now ids db) e in
      let at_uid : (conn.id == conn.id
            && conn.tenant_id == conn.tenant_id
            && true
            && not (any (λ e. str_eq e.uid uid) (event ∷ events)))
          ≡ false =
        rw (own, tenant, named, c) at present in
      let unabsent : not (any (λ e. str_eq e.uid uid) (event ∷ events)) ≡ false =
        rw ((==_iff conn.id conn.id).1 refl, (==_iff conn.tenant_id conn.tenant_id).1 refl) at
          at_uid in
      not-false (any (λ e. str_eq e.uid uid) (event ∷ events)) unabsent
