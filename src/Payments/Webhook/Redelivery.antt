-- ===== src/Payments/Webhook/Redelivery.antt =====
-- The same webhook body twice (`handle` of apps/api/src/payments/payment-webhook.service.ts).
use sambung.Db.Keeps.{Keeps, Keeps-bind, Keeps-lift}
use sambung.Common.{
  option_map, ℕ, ◌≡◌, refl, sym, ◌∙◌, subst, inl, inr, String, Bool, true, false, ◌&&◌, Option,
  none, some, List, [], ◌==◌, str_eq, if◌then◌else◌, arith, Bool-cases,
}
use sambung.Db.Tx.{committed, bad_request, Result, ok, err, Error, ◌>>=◌, lift, Tx}
use sambung.Db.Schema.{confirmed, Booking, Payment, PaymentStatus, is_unpaid, Db}
use sambung.Booking.{set_status}
use sambung.Payments.{ParsedPaymentEvent, GatewayCredential, Gateway}
use sambung.Payments.Webhook.{
  payment_by_id, booking_by_id, tenant_of, join_tenant, resolve_tenant, credential_for_order,
  close_payment, confirm_booking, is_confirmable, deliver, handle_with, handle,
}
use sambung.Payments.Webhook.Once.{deliver_again}
use sambung.Payments.Webhook.Keeps.{handle_with-Keeps, Stable}
use sambung.Payments.Webhook.Statuses.{confirm-find, close-find}

tenant-confirm :
    (booking id : ℕ) (db : Db)
    → tenant_of (booking_by_id id (confirm_booking booking db).bookings)
      ≡ tenant_of (booking_by_id id db.bookings)
tenant-confirm booking id db = rw (confirm-find booking id db) (same (booking_by_id id db.bookings))
  where
    same :
        (o : Option Booking)
        → tenant_of
            (option_map (λ b. if is_confirmable booking b then set_status confirmed b else b) o)
          ≡ tenant_of o
    same none = refl
    same (some b) = ground arith

join_tenant-close :
    (order id : ℕ) (status : PaymentStatus) (db : Db)
    → join_tenant
        (close_payment order status db)
        (payment_by_id id (close_payment order status db).payments)
      ≡ join_tenant db (payment_by_id id db.payments)
unfolding close_payment
join_tenant-close order id status db =
    rw (close-find order id status db) (same (payment_by_id id db.payments))
  where
    same :
        (o : Option Payment)
        → join_tenant (close_payment order status db) (
            option_map
              (λ p. if p.id == order && is_unpaid p.status then record p { status = status } else p)
              o)
          ≡ join_tenant db o
    same none = refl
    same (some p) = elim (Bool-cases (p.id == order && is_unpaid p.status)) [
      | inl y ↦ rw y refl
      | inr n ↦ rw n refl
    ]

join_tenant-confirm :
    (booking : ℕ) (o : Option Payment) (db : Db)
    → join_tenant (confirm_booking booking db) o ≡ join_tenant db o
join_tenant-confirm booking none db = refl
join_tenant-confirm booking (some p) db = tenant-confirm booking p.booking_id db

key-close :
    (id : ℕ) (status : PaymentStatus) (o : Option ℕ) (db : Db)
    → resolve_tenant (close_payment id status db) o ≡ resolve_tenant db o
unfolding close_payment
key-close id status none db = refl
key-close id status (some t) db = refl

key-confirm :
    (id : ℕ) (o : Option ℕ) (db : Db)
    → resolve_tenant (confirm_booking id db) o ≡ resolve_tenant db o
unfolding confirm_booking
key-confirm id none db = refl
key-confirm id (some t) db = refl

-- The key of an order is the same before and after a delivery.
key-Stable :
    (requires : Bool) (order : ℕ) (key : Result (Option GatewayCredential))
    → Stable (λ db. credential_for_order requires order db ≡ key)
unfolding credential_for_order confirm_booking
key-Stable true order key = record {
  events = λ es db h. h;
  closes = λ id status db h.
      rw (join_tenant-close id order status db)
        (key-close id status (join_tenant db (payment_by_id order db.payments)) db ∙ h);
  confirms = λ id db h.
      rw (join_tenant-confirm id (payment_by_id order db.payments) db)
        (key-confirm id (join_tenant db (payment_by_id order db.payments)) db ∙ h);
}
key-Stable false order key = record {
  events = λ es db h. h;
  closes = λ id status db h. h;
  confirms = λ id db h. h;
}

-- A delivery after one that returned.
deliver_silent :
    (provider : String) (event : ParsedPaymentEvent) (db : Db) {notified : List ℕ} {after : Db}
    → deliver provider event db ≡ ok (notified, after)
    → deliver provider event after ≡ ok ([], after)
deliver_silent provider event db e =
    let (n, a, first, second) = deliver_again provider event db in
    subst (λ r. deliver provider event (committed db r) ≡ ok ([], committed db r)) (sym first ∙ e)
      second

module _ {Body : Type 0} (gateway : Gateway Body) where
  handle_with-again :
      (body : Body) (key : Option GatewayCredential) (db : Db) {notified : List ℕ} {after : Db}
      → handle_with gateway body key db ≡ ok (notified, after)
      → handle_with gateway body key after ≡ ok ([], after)
  unfolding handle_with
  handle_with-again body none db e = cc
  handle_with-again body (some key) db e = verified (gateway.verify_and_parse body key) db e
    where
      verified :
          (r : Result ParsedPaymentEvent) (db : Db) {notified : List ℕ} {after : Db}
          → (lift r >>= λ event. deliver gateway.provider event) db ≡ ok (notified, after)
          → (lift r >>= λ event. deliver gateway.provider event) after ≡ ok ([], after)
      verified (err x) db e = cc
      verified (ok event) db e = deliver_silent gateway.provider event db e

  -- `handle` once the credential is looked up.
  abbrev keyed : Body → Result (Option GatewayCredential) → Tx (List ℕ)
  keyed body key = do credential ← lift key; handle_with gateway body credential

  keyed-again :
      (body : Body) (key : Result (Option GatewayCredential)) (db : Db) {notified : List ℕ}
      {after : Db}
      → keyed body key db ≡ ok (notified, after)
      → keyed body key after ≡ ok ([], after)
  keyed-again body (ok key) db e = handle_with-again body key db e
  keyed-again body (err x) db e = cc

  keyed-Keeps :
      {P : Db → Type 0}
      → Stable P
      → (body : Body) (key : Result (Option GatewayCredential)) → Keeps P (keyed body key)
  keyed-Keeps s body key = Keeps-bind _ _ (Keeps-lift key) (handle_with-Keeps s gateway body)

  handle-eq :
      (provider : String) (body : Body) (order : ℕ) (db : Db)
      → (str_eq provider "midtrans" && str_eq provider gateway.provider) ≡ true
      → gateway.peek_order_id body ≡ some order
      → handle gateway provider body db
        ≡ keyed body (credential_for_order gateway.requires_credentials order db) db
  unfolding handle
  handle-eq provider body order db h e = rw (h, e)

  handle-refused :
      (provider : String) (body : Body) (db : Db)
      → (str_eq provider "midtrans" && str_eq provider gateway.provider) ≡ false
      → handle gateway provider body db ≡ err Error.not_found
  unfolding handle
  handle-refused provider body db h = rw h

  handle-no_order :
      (provider : String) (body : Body) (db : Db)
      → (str_eq provider "midtrans" && str_eq provider gateway.provider) ≡ true
      → gateway.peek_order_id body ≡ none
      → handle gateway provider body db ≡ err bad_request
  unfolding handle
  handle-no_order provider body db h e = rw (h, e)

  -- Whatever the webhook returned 200 for, the same body delivered again returns 200, notifies no
  -- one and changes nothing.
  pub handle_again :
      (provider : String) (body : Body) (db : Db) {notified : List ℕ} {after : Db}
      → handle gateway provider body db ≡ ok (notified, after)
      → handle gateway provider body after ≡ ok ([], after)
  handle_again provider body db {notified} {after} e =
      elim (Bool-cases (str_eq provider "midtrans" && str_eq provider gateway.provider)) [
        | inr n ↦ (let refused = handle-refused provider body db n in cc)
        | inl y ↦ peeked y (gateway.peek_order_id body) refl
      ]
    where
      key_after :
          (order : ℕ) (key : Result (Option GatewayCredential))
          → keyed body key db ≡ ok (notified, after)
          → credential_for_order gateway.requires_credentials order db ≡ key
          → credential_for_order gateway.requires_credentials order after ≡ key
      key_after order key first h =
          subst
            (λ r. credential_for_order gateway.requires_credentials order (committed db r) ≡ key)
            first
            ((keyed-Keeps (key-Stable gateway.requires_credentials order key) body key).at db h)

      peeked :
          (str_eq provider "midtrans" && str_eq provider gateway.provider) ≡ true
          → (o : Option ℕ) → gateway.peek_order_id body ≡ o
          → handle gateway provider body after ≡ ok ([], after)
      peeked y none p = (let refused = handle-no_order provider body db y p in cc)
      peeked y (some order) p =
          let key = credential_for_order gateway.requires_credentials order db in
          let first = sym (handle-eq provider body order db y p) ∙ e in
          handle-eq provider body order after y p
          ∙ rw (key_after order key first refl) (keyed-again body key db first)
