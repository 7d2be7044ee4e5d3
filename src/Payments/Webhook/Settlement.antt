-- ===== src/Payments/Webhook/Settlement.antt =====
-- A first settlement of a live hold (apps/api/src/payments/payment-webhook.service.ts).
use sambung.Common.{
  find_sound, any-find, ℕ, ◌≡◌, refl, ◌∙◌, String, true, false, some, [], ◌∷◌, ◌==◌, any, ==_iff,
}
use sambung.Db.Tx.{ok}
use sambung.Db.Schema.{pending_payment, confirmed, Booking, PaymentStatus, paid, Db}
use sambung.Payments.{ParsedPaymentEvent}
use sambung.Payments.Webhook.{
  settled, booking_by_id, is_confirmable, insert_event, close_payment, confirm_booking, transition,
  apply_outcome, after_commit, deliver,
}
use sambung.Payments.Webhook.Once.{is_recorded}
use sambung.Payments.Webhook.Effect.{Settles}
use sambung.Payments.Webhook.Statuses.{status_of, payment_status_of, confirm-find, close-find}

module _ (provider : String) (event : ParsedPaymentEvent) (db : Db) (id : ℕ)
    (settles : Settles event id db) where
  abbrev settled_db : Db
  settled_db = record db {
    payment_events =
        record { provider = provider; provider_event_id = event.provider_event_id; booking_id = id }
        ∷ db.payment_events;
    payments = (close_payment event.order_id paid db).payments;
    bookings = (confirm_booking id db).bookings;
  }

  deliver-settled :
      is_recorded provider event db ≡ false
      → deliver provider event db
        ≡ ok (after_commit (settled id (any (is_confirmable id) db.bookings)), settled_db)
  unfolding deliver insert_event apply_outcome transition close_payment confirm_booking
  deliver-settled fresh =
      rw (settles.found, fresh)
        (rw
          (
            (==_iff event.gross_amount_idr settles.payment.amount_idr).1 settles.amount,
            settles.outcome,
          )
          (rw (
            settles.of_booking,
            (==_iff settles.payment.id event.order_id).0
                (find_sound (λ p. p.id == event.order_id) db.payments settles.found),
          )))

  live :
      {b : Booking}
      → booking_by_id id db.bookings ≡ some b
      → b.status ≡ pending_payment
      → any (is_confirmable id) db.bookings ≡ true
  unfolding is_confirmable
  live {b} found pending =
      any-find (λ b. b.id == id) _ db.bookings found
        (rw (find_sound (λ b. b.id == id) db.bookings found, pending))

  -- The first settlement of a pending payment, for the amount charged, of a booking that is
  -- pending_payment is delivered without an error, confirms the booking, marks the payment paid and
  -- notifies that booking alone.
  pub deliver_settles :
      {b : Booking}
      → is_recorded provider event db ≡ false
      → booking_by_id id db.bookings ≡ some b
      → b.status ≡ pending_payment
      → settles.payment.status ≡ PaymentStatus.pending
      → (after : Db) × (deliver provider event db ≡ ok (id ∷ [], after))
        × (status_of id after ≡ some confirmed)
        × (payment_status_of event.order_id after ≡ some paid)
  unfolding is_confirmable
  deliver_settles {b} fresh found pending unpaid = (
    settled_db,
    deliver-settled fresh ∙ rw (live found pending) refl,
    rw (confirm-find id id db, found)
        (rw (find_sound (λ b. b.id == id) db.bookings found, pending)),
    rw (close-find event.order_id event.order_id paid db, settles.found)
        (rw (find_sound (λ p. p.id == event.order_id) db.payments settles.found, unpaid)),
  )
