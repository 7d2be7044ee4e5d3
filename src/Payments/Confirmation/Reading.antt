-- ===== src/Payments/Confirmation/Reading.antt =====
-- A visit that finds money that no webhook told of
-- (apps/api/src/payments/confirmation.service.ts).
use sambung.Common.{
  ==_iff, some_inj, option_map, find-and, ℕ, ◌≡◌, refl, false, Option, none, some, [], ◌∷◌, ◌==◌,
  arith,
}
use sambung.Db.Tx.{ok}
use sambung.Db.Schema.{pending_payment, confirmed, Booking, PaymentStatus, Db}
use sambung.Booking.{expire_lapsed_holds, is_lapsed}
use sambung.Booking.Checkout.{swept}
use sambung.Payments.{GatewayCredential, ParsedPaymentEvent, Gateway}
use sambung.Payments.Webhook.{booking_by_id, credential_for_order, reconcile}
use sambung.Payments.Webhook.Once.{is_recorded}
use sambung.Payments.Webhook.Effect.{Settles}
use sambung.Payments.Webhook.Statuses.{status_of}
use sambung.Payments.Webhook.Settlement.{deliver_settles}
use sambung.Payments.Pay.{enter_from_booking_id, find_pending_payment_order_id}
use sambung.Payments.Pay.Retry.{id-swept, lapse}
use sambung.Payments.Confirmation.{reconcile_on_read, get_confirmation}

-- The booking awaits a payment that the provider reports as settled.
pub record Settled {Body : Type 0} (gateway : Gateway Body) (booking : ℕ) (db : Db) : Type 0 where
  pub row : Booking
  pub found : booking_by_id booking db.bookings ≡ some row
  pub pending : row.status ≡ pending_payment
  pub order : ℕ
  pub awaited : find_pending_payment_order_id booking db ≡ some order
  pub credential : GatewayCredential
  pub resolves : credential_for_order gateway.requires_credentials order db ≡ ok (some credential)
  pub event : ParsedPaymentEvent
  pub reports : gateway.fetch_status order credential ≡ ok (some event)
  pub settles : Settles event booking db
  pub unpaid : settles.payment.status ≡ PaymentStatus.pending
  pub unseen : is_recorded gateway.provider event db ≡ false

module _ {Body : Type 0} (gateway : Gateway Body) (now booking : ℕ) (db : Db)
    (s : Settled gateway booking db) where
  reconciles :
      (after : Db) × (reconcile gateway s.order db ≡ ok (booking ∷ [], after))
      × (status_of booking after ≡ some confirmed)
  unfolding reconcile
  reconciles =
      let (after, delivers, status, paid) =
        deliver_settles gateway.provider s.event db booking s.settles s.unseen s.found s.pending
          s.unpaid in
      (after, rw s.resolves (rw s.reports delivers), status)

  stays_confirmed :
      (unit : ℕ) (after : Db)
      → status_of booking after ≡ some confirmed
      → status_of booking (swept s.row.tenant_id now unit after) ≡ some confirmed
  unfolding is_lapsed
  stays_confirmed unit after e =
      rw (id-swept s.row.tenant_id now unit booking after)
        (kept (booking_by_id booking after.bookings) e)
    where
      kept :
          (o : Option Booking)
          → option_map (λ b. b.status) o ≡ some confirmed
          → option_map (λ b. b.status) (option_map (lapse s.row.tenant_id now unit booking) o)
            ≡ some confirmed
      kept none e = cc
      kept (some b) e = rw (some_inj.0 e) (ground arith)

  -- When the provider reports, for the open payment of a booking that is pending_payment, a
  -- settlement of exactly the amount charged that no delivery told of, a visit of the confirmation
  -- page confirms the booking and notifies it, even when the hold has lapsed.
  pub get_confirmation_confirms :
      ((get_confirmation gateway now booking db).notified ≡ booking ∷ [])
      × (status_of booking (get_confirmation gateway now booking db).after ≡ some confirmed)
  unfolding get_confirmation reconcile_on_read expire_lapsed_holds enter_from_booking_id
  get_confirmation_confirms =
      let (after, e, status) = reconciles in
      let own =
        find-and (λ c. c.id == booking) (λ c. c.tenant_id == s.row.tenant_id) db.bookings s.found
          ((==_iff s.row.tenant_id s.row.tenant_id).1 refl) in
      rw s.found (
        rw own
          (rw (s.pending, s.awaited) (rw e (refl, stays_confirmed s.row.unit_id after status))))
