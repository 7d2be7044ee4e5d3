-- ===== src/Payments/Pay/Paid.antt =====
-- What a `pay` (apps/api/src/payments/payments.service.ts) that returned has found on its way, and
-- the way of one that finds an open session.
use sambung.Db.Keeps.{>>=-eq-ok}
use sambung.Common.{none, some, ℕ, ◌≡◌, String, Bool, true, false, Option}
use sambung.Db.Tx.{Result, or_throw, payments_not_configured, ok, Error, pure, err, lift, ◌>>=◌}
use sambung.Db.Schema.{Booking, Db}
use sambung.Db.Inversion.{lift-inv, guard-inv, or_throw-inv}
use sambung.Booking.{expire_lapsed_holds}
use sambung.Booking.Checkout.{swept}
use sambung.Payments.{maybe_resolve, GatewayCredential, Gateway, for_gateway_or_throw}
use sambung.Payments.Webhook.{booking_by_id}
use sambung.Payments.Pay.{
  PayContext, OpenSession, PaymentSessionResponse, enter_from_booking_id, lock_and_load,
  read_status, find_open_session, to_response, is_payable, reuse_or_mint, pay_locked, pay,
}

enter-inv :
    (id : ℕ) (db : Db) {t : ℕ} {m : Db}
    → enter_from_booking_id id db ≡ ok (t, m)
    → (b : Booking) × (booking_by_id id db.bookings ≡ some b) × (t ≡ b.tenant_id) × (m ≡ db)
unfolding enter_from_booking_id
enter-inv id db e =
    let (b, found, e1) =
      or_throw-inv (booking_by_id id db.bookings) Error.not_found
        (λ (b : Booking). pure b.tenant_id) db e in
    (b, found, cc, cc)

credential-inv :
    (requires : Bool) (tenant : ℕ) (db : Db) {c : GatewayCredential} {m : Db}
    → for_gateway_or_throw requires tenant db ≡ ok (c, m)
    → m ≡ db
unfolding for_gateway_or_throw
credential-inv true tenant db e = resolved (maybe_resolve tenant db) e
  where
    resolved :
        (o : Result (Option GatewayCredential)) {c : GatewayCredential} {m : Db}
        → (lift o >>= λ k. or_throw k payments_not_configured) db ≡ ok (c, m)
        → m ≡ db
    resolved (err x) e = cc
    resolved (ok none) e = cc
    resolved (ok (some k)) e = cc
credential-inv false tenant db e = cc

module _ {Body : Type 0} (gateway : Gateway Body) (is_url : String → Bool) (booking : ℕ) where
  -- What a pay that returned found.
  pub record Paid (now new_id : ℕ) (db : Db) (y : PaymentSessionResponse × Db) : Type 0 where
    pub row : Booking
    pub found : booking_by_id booking db.bookings ≡ some row
    pub credential : GatewayCredential
    pub resolves :
        for_gateway_or_throw gateway.requires_credentials row.tenant_id db ≡ ok (credential, db)
    pub ctx : PayContext
    pub locked : lock_and_load row.tenant_id booking db ≡ some ctx
    pub payable :
        is_payable (read_status row.tenant_id booking (swept row.tenant_id now ctx.unit_id db))
        ≡ true
    pub total : ℕ
    pub priced : ctx.total_price_idr ≡ some total
    pub session : Option OpenSession
    pub opened : find_open_session booking (swept row.tenant_id now ctx.unit_id db) ≡ ok session
    pub finishes :
        reuse_or_mint gateway is_url now new_id booking credential ctx total session
          (swept row.tenant_id now ctx.unit_id db)
        ≡ ok y

  pay_locked-Paid :
      (now new_id : ℕ) (db : Db) {y : PaymentSessionResponse × Db} (b : Booking)
      (c : GatewayCredential)
      → booking_by_id booking db.bookings ≡ some b
      → for_gateway_or_throw gateway.requires_credentials b.tenant_id db ≡ ok (c, db)
      → pay_locked gateway is_url now new_id booking b.tenant_id c db ≡ ok y
      → Paid now new_id db y
  unfolding pay_locked expire_lapsed_holds
  pay_locked-Paid now new_id db b c found resolves e =
      let (ctx, locked, e1) = or_throw-inv (lock_and_load b.tenant_id booking db) _ _ db e in
      let (payable, e2) = guard-inv _ _ _ (swept b.tenant_id now ctx.unit_id db) e1 in
      let (total, priced, e3) =
        or_throw-inv ctx.total_price_idr _ _ (swept b.tenant_id now ctx.unit_id db) e2 in
      let (session, opened, finishes) =
        lift-inv (find_open_session booking (swept b.tenant_id now ctx.unit_id db))
          (λ session. reuse_or_mint gateway is_url now new_id booking c ctx total session)
          (swept b.tenant_id now ctx.unit_id db) e3 in
      record {
        row = b;
        found = found;
        credential = c;
        resolves = resolves;
        ctx = ctx;
        locked = locked;
        payable = payable;
        total = total;
        priced = priced;
        session = session;
        opened = opened;
        finishes = finishes;
      }

  pub pay-Paid :
      (now new_id : ℕ) (db : Db) {y : PaymentSessionResponse × Db}
      → pay gateway is_url now new_id booking db ≡ ok y
      → Paid now new_id db y
  unfolding pay pay_locked expire_lapsed_holds
  pay-Paid now new_id db e =
      let (t, m, e1, e2) = >>=-eq-ok (enter_from_booking_id booking) _ db e in
      let (b, found, tb, mb) = enter-inv booking db e1 in
      let (c, k, e3, e4) =
        >>=-eq-ok (for_gateway_or_throw gateway.requires_credentials b.tenant_id) _ db
          (rw (tb, mb) at e2) in
      let same = credential-inv gateway.requires_credentials b.tenant_id db e3 in
      pay_locked-Paid now new_id db b c found (rw same at e3) (rw same at e4)

  -- A pay that finds an open session.
  pub reuses :
      (now new_id : ℕ) (db : Db) {b : Booking} {c : GatewayCredential} {ctx : PayContext}
      {total : ℕ} {s : OpenSession} {r : PaymentSessionResponse}
      → booking_by_id booking db.bookings ≡ some b
      → for_gateway_or_throw gateway.requires_credentials b.tenant_id db ≡ ok (c, db)
      → lock_and_load b.tenant_id booking db ≡ some ctx
      → is_payable (read_status b.tenant_id booking (swept b.tenant_id now ctx.unit_id db)) ≡ true
      → ctx.total_price_idr ≡ some total
      → find_open_session booking (swept b.tenant_id now ctx.unit_id db) ≡ ok (some s)
      → to_response is_url s total ≡ ok r
      → pay gateway is_url now new_id booking db ≡ ok (r, swept b.tenant_id now ctx.unit_id db)
  unfolding pay pay_locked reuse_or_mint expire_lapsed_holds enter_from_booking_id
  reuses now new_id db h1 h2 h3 h4 h5 h6 h7 =
      rw (h1) (rw (h2) (rw (h3) (rw h4 (rw h5 (rw h6 (rw h7))))))
