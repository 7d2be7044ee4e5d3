-- ===== src/Payments/Pay/Retry.antt =====
-- A retried `pay` (apps/api/src/payments/payments.service.ts): the open session is handed back.
use sambung.Common.{
  subst, sym, ◌∙◌, if◌then◌else◌, List, refl, Bool-cases, inl, inr, ◌&&◌, arith, ◌==◌, option_map,
  find-map, find-and, ==_iff, not, none, some, ℕ, ◌≡◌, String, Bool, true, false, Option,
}
use sambung.Db.Tx.{Result, or_throw, payments_not_configured, ok, err, lift, ◌>>=◌}
use sambung.Db.Schema.{expired, Payment, is_pending, Booking, Db}
use sambung.Booking.{before, set_status, is_lapsed}
use sambung.Booking.Checkout.{swept}
use sambung.Payments.{maybe_resolve, GatewayCredential, Gateway, for_gateway_or_throw}
use sambung.Payments.Webhook.{booking_by_id}
use sambung.Payments.Pay.Session.{reuse_or_mint-LeavesOpen}
use sambung.Payments.Pay.{
  own_booking, pay_context, OpenSession, PaymentSessionResponse, lock_and_load, read_status,
  find_open_session, to_response, is_payable, pay,
}
use sambung.Payments.Pay.Paid.{Paid, pay-Paid, reuses}

-- The hold is live at the moment.
abbrev pub is_held : ℕ → Option Booking → Bool
is_held now none = false
is_held now (some b) = is_pending b.status && not (before b.hold_expires_at now)

for_gateway-same :
    (requires : Bool) (tenant : ℕ) (db db' : Db) {c : GatewayCredential}
    → db'.credentials ≡ db.credentials
    → db'.sealed ≡ db.sealed
    → for_gateway_or_throw requires tenant db ≡ ok (c, db)
    → for_gateway_or_throw requires tenant db' ≡ ok (c, db')
unfolding for_gateway_or_throw
for_gateway-same true tenant db db' same opened e =
    kept (maybe_resolve tenant db) (maybe_resolve tenant db') (rw (same, opened) refl) e
  where
    kept :
        (o o' : Result (Option GatewayCredential)) {c : GatewayCredential}
        → o' ≡ o
        → (lift o >>= λ k. or_throw k payments_not_configured) db ≡ ok (c, db)
        → (lift o' >>= λ k. or_throw k payments_not_configured) db' ≡ ok (c, db')
    kept (err x) o' h e = cc
    kept (ok none) o' h e = cc
    kept (ok (some k)) o' h e = rw h cc
for_gateway-same false tenant db db' same opened e = cc

module _ (tenant now unit booking : ℕ) where
  abbrev pub lapse : Booking → Booking
  lapse b =
      if b.unit_id == unit && b.tenant_id == tenant && is_lapsed now b
      then set_status expired b
      else b

  own-swept :
      (t : ℕ) (db : Db)
      → own_booking t booking (swept tenant now unit db)
        ≡ option_map lapse (own_booking t booking db)
  own-swept t db =
      find-map (λ b. b.id == booking && b.tenant_id == t) lapse (λ b. ground arith) db.bookings

  pub id-swept :
      (db : Db)
      → booking_by_id booking (swept tenant now unit db).bookings
        ≡ option_map lapse (booking_by_id booking db.bookings)
  id-swept db = find-map (λ b. b.id == booking) lapse (λ b. ground arith) db.bookings

  pub tenant-lapse : (b : Booking) → (lapse b).tenant_id ≡ b.tenant_id
  tenant-lapse b = ground arith

  locked-swept :
      (db : Db) (ps : List Payment)
      → lock_and_load tenant booking (record (swept tenant now unit db) { payments = ps })
        ≡ lock_and_load tenant booking db
  unfolding lock_and_load
  locked-swept db ps = rw (own-swept tenant db) (same (own_booking tenant booking db))
    where
      same :
          (o : Option Booking)
          → pay_context tenant
              (record (swept tenant now unit db) { payments = ps })
              (option_map lapse o)
            ≡ pay_context tenant db o
      same none = refl
      same (some b) =
          elim (Bool-cases (b.unit_id == unit && b.tenant_id == tenant && is_lapsed now b)) [
            | inl y ↦ rw y refl
            | inr n ↦ rw n refl
          ]

  held-swept :
      (db : Db) {b : Booking}
      → booking_by_id booking db.bookings ≡ some b
      → b.tenant_id ≡ tenant
      → is_held now (some b) ≡ true
      → is_payable (read_status tenant booking (swept tenant now unit db)) ≡ true
  unfolding read_status is_lapsed
  held-swept db {b} found of_tenant held = rw (own-swept tenant db) (
      rw
        (find-and (λ c. c.id == booking) (λ c. c.tenant_id == tenant) db.bookings found
          ((==_iff b.tenant_id tenant).1 of_tenant))
        (ground (arith, held)))

module _ {Body : Type 0} (gateway : Gateway Body) (is_url : String → Bool) (booking : ℕ) where
  retried :
      (now new_id later other_id : ℕ) (db : Db) {y : PaymentSessionResponse × Db}
      (p : Paid gateway is_url booking now new_id db y) (ps : List Payment) {s : OpenSession}
      {r : PaymentSessionResponse}
      → find_open_session booking
          (record (swept p.row.tenant_id now p.ctx.unit_id db) { payments = ps })
        ≡ ok (some s)
      → to_response is_url s p.total ≡ ok r
      → is_held later (booking_by_id booking (swept p.row.tenant_id now p.ctx.unit_id db).bookings)
        ≡ true
      → (end : Db) × (pay gateway is_url later other_id booking
            (record (swept p.row.tenant_id now p.ctx.unit_id db) { payments = ps })
          ≡ ok (r, end))
        × (end.payments ≡ ps)
  unfolding find_open_session
  retried now new_id later other_id db p ps opened framed held = (
    _,
    reuses gateway is_url booking later other_id _ found key locked
        (held-swept row.tenant_id later p.ctx.unit_id booking _ found refl
          (subst (λ o. is_held later o ≡ true) found held))
        p.priced opened framed,
    refl,
  )
    where
      row : Booking
      row = lapse p.row.tenant_id now p.ctx.unit_id booking p.row

      same : row.tenant_id ≡ p.row.tenant_id
      same = tenant-lapse p.row.tenant_id now p.ctx.unit_id booking p.row

      found : booking_by_id booking (swept p.row.tenant_id now p.ctx.unit_id db).bookings ≡ some row
      found = id-swept p.row.tenant_id now p.ctx.unit_id booking db ∙ rw p.found refl

      key :
          for_gateway_or_throw gateway.requires_credentials row.tenant_id
            (record (swept p.row.tenant_id now p.ctx.unit_id db) { payments = ps })
          ≡ ok (p.credential, record (swept p.row.tenant_id now p.ctx.unit_id db) { payments = ps })
      key =
          rw same (
            for_gateway-same gateway.requires_credentials p.row.tenant_id db _ refl refl p.resolves)

      locked :
          lock_and_load row.tenant_id booking
            (record (swept p.row.tenant_id now p.ctx.unit_id db) { payments = ps })
          ≡ some p.ctx
      locked = rw same (locked-swept p.row.tenant_id now p.ctx.unit_id booking db ps ∙ p.locked)

  -- After a pay that returned, another pay of the same booking at any moment at which the hold is
  -- live returns the very same response and leaves the payments as they are, whatever the provider
  -- would answer to a new session.
  pub pay_again :
      (now new_id later other_id : ℕ) (db : Db) {r : PaymentSessionResponse} {after : Db}
      → pay gateway is_url now new_id booking db ≡ ok (r, after)
      → is_held later (booking_by_id booking after.bookings) ≡ true
      → (end : Db) × (pay gateway is_url later other_id booking after ≡ ok (r, end))
        × (end.payments ≡ after.payments)
  pay_again now new_id later other_id db {r} {after} e held =
      let p = pay-Paid gateway is_url booking now new_id db e in
      let left =
        reuse_or_mint-LeavesOpen gateway is_url now new_id booking p.credential p.ctx p.total
          p.session (swept p.row.tenant_id now p.ctx.unit_id db) p.opened p.finishes in
      let again =
        retried now new_id later other_id db p after.payments
          (subst (λ d. find_open_session booking d ≡ ok (some left.session)) left.only_payments
            left.stays_open)
          left.framed
          (subst (λ d. is_held later (booking_by_id booking d.bookings) ≡ true) left.only_payments
            held) in
      subst
        (λ d.
          (end : Db) × (pay gateway is_url later other_id booking d ≡ ok (r, end))
          × (end.payments ≡ after.payments))
        (sym left.only_payments) again
