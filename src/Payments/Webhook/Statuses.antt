-- ===== src/Payments/Webhook/Statuses.antt =====
-- What a delivery does to the statuses of bookings and payments (`applyOutcome` of
-- apps/api/src/payments/payment-webhook.service.ts).
use sambung.Common.{
  find_sound, find-map, option_map, ℕ, ◌≡◌, refl, sym, ap, ◌∙◌, subst, ◌⊎◌, inl, inr, String, true,
  ◌&&◌, Option, none, some, List, ◌==◌, if◌then◌else◌, arith, Bool-cases, ==_iff,
}
use sambung.Db.Tx.{ok}
use sambung.Db.Schema.{
  BookingStatus, pending_payment, confirmed, is_pending, Booking, PaymentStatus, paid, failed,
  is_unpaid, Payment, Db,
}
use sambung.Booking.{set_status}
use sambung.Payments.{PaymentOutcome, ParsedPaymentEvent}
use sambung.Payments.Webhook.{
  payment_by_id, booking_by_id, is_confirmable, close_payment, confirm_booking, deliver,
}
use sambung.Payments.Webhook.Effect.{
  deliver-Effect, Settles, Effect, no_change, failed_only, paid_up,
}

abbrev pub status_of : ℕ → Db → Option BookingStatus
status_of id db = option_map (λ b. b.status) (booking_by_id id db.bookings)

abbrev pub payment_status_of : ℕ → Db → Option PaymentStatus
payment_status_of id db = option_map (λ p. p.status) (payment_by_id id db.payments)

-- A booking's status stays, or the event settles the booking and confirms it.
abbrev pub BookingMoves : ParsedPaymentEvent → ℕ → Db → Db → Type 0
BookingMoves event id db after =
    (status_of id after ≡ status_of id db)
    ⊎ (Settles event id db
        × (status_of id db ≡ some pending_payment)
        × (status_of id after ≡ some confirmed))

-- A payment's status stays, or the event names the payment and closes it.
abbrev pub PaymentMoves : ParsedPaymentEvent → ℕ → Db → Db → Type 0
PaymentMoves event id db after =
    (payment_status_of id after ≡ payment_status_of id db)
    ⊎ ((id ≡ event.order_id)
        × (payment_status_of id db ≡ some PaymentStatus.pending)
        × (((event.outcome ≡ PaymentOutcome.settlement) × (payment_status_of id after ≡ some paid))
            ⊎ ((event.outcome ≡ PaymentOutcome.failure)
                × (payment_status_of id after ≡ some failed))))

pending-eq : (status : BookingStatus) → is_pending status ≡ true → status ≡ pending_payment
pending-eq pending_payment h = refl
pending-eq confirmed h = cc
pending-eq BookingStatus.cancelled h = cc
pending-eq BookingStatus.expired h = cc

unpaid-eq : (status : PaymentStatus) → is_unpaid status ≡ true → status ≡ PaymentStatus.pending
unpaid-eq PaymentStatus.pending h = refl
unpaid-eq paid h = cc
unpaid-eq failed h = cc

pub confirm-find :
    (booking id : ℕ) (db : Db)
    → booking_by_id id (confirm_booking booking db).bookings
      ≡ option_map
          (λ b. if is_confirmable booking b then set_status confirmed b else b)
          (booking_by_id id db.bookings)
unfolding confirm_booking
confirm-find booking id db = find-map (λ b. b.id == id) _ (λ b. ground arith) db.bookings

pub close-find :
    (order id : ℕ) (status : PaymentStatus) (db : Db)
    → payment_by_id id (close_payment order status db).payments
      ≡ option_map
          (λ p. if p.id == order && is_unpaid p.status then record p { status = status } else p)
          (payment_by_id id db.payments)
unfolding close_payment
close-find order id status db = find-map (λ p. p.id == id) _ (λ p. ground arith) db.payments

status_of-confirm :
    (booking id : ℕ) (db : Db)
    → (status_of id (confirm_booking booking db) ≡ status_of id db)
      ⊎ ((booking ≡ id)
          × (status_of id db ≡ some pending_payment)
          × (status_of id (confirm_booking booking db) ≡ some confirmed))
unfolding is_confirmable
status_of-confirm booking id db = rw (confirm-find booking id db) (
    found (booking_by_id id db.bookings)
      λ b e. (==_iff b.id id).0 (find_sound (λ b. b.id == id) db.bookings e))
  where
    found :
        (o : Option Booking)
        → ((b : Booking) → o ≡ some b → b.id ≡ id)
        → (option_map
              (λ b. b.status)
              (option_map (λ b. if is_confirmable booking b then set_status confirmed b else b) o)
            ≡ option_map (λ b. b.status) o)
          ⊎ ((booking ≡ id)
              × (option_map (λ b. b.status) o ≡ some pending_payment)
              × (option_map
                    (λ b. b.status)
                    (option_map
                      (λ b. if is_confirmable booking b then set_status confirmed b else b)
                      o)
                  ≡ some confirmed))
    found none h = inl refl
    found (some b) h = elim (Bool-cases (b.id == booking && is_pending b.status)) [
      | inl y ↦ inr (
        sym ((==_iff b.id booking).0 (ground arith)) ∙ h b refl,
        ap some (pending-eq b.status (ground arith)),
        rw y refl,
      )
      | inr n ↦ inl (rw n refl)
    ]

payment_status_of-close :
    (order id : ℕ) (status : PaymentStatus) (db : Db)
    → (payment_status_of id (close_payment order status db) ≡ payment_status_of id db)
      ⊎ ((id ≡ order)
          × (payment_status_of id db ≡ some PaymentStatus.pending)
          × (payment_status_of id (close_payment order status db) ≡ some status))
payment_status_of-close order id status db = rw (close-find order id status db) (
    found (payment_by_id id db.payments)
      λ p e. (==_iff p.id id).0 (find_sound (λ p. p.id == id) db.payments e))
  where
    closing : Payment → Payment
    closing p = if p.id == order && is_unpaid p.status then record p { status = status } else p

    found :
        (o : Option Payment)
        → ((p : Payment) → o ≡ some p → p.id ≡ id)
        → (option_map (λ p. p.status) (option_map closing o) ≡ option_map (λ p. p.status) o)
          ⊎ ((id ≡ order)
              × (option_map (λ p. p.status) o ≡ some PaymentStatus.pending)
              × (option_map (λ p. p.status) (option_map closing o) ≡ some status))
    found none h = inl refl
    found (some p) h = elim (Bool-cases (p.id == order && is_unpaid p.status)) [
      | inl y ↦ inr (
        sym (h p refl) ∙ (==_iff p.id order).0 (ground arith),
        ap some (unpaid-eq p.status (ground arith)),
        rw y refl,
      )
      | inr n ↦ inl (rw n refl)
    ]

confirmed-by :
    (event : ParsedPaymentEvent) (db : Db) {notified : List ℕ} {after : Db}
    → Effect event db notified after
    → (id : ℕ) → BookingMoves event id db after
confirmed-by event db (no_change bookings payments) id = inl (rw bookings)
confirmed-by event db (failed_only o bookings payments) id = inl (rw bookings)
confirmed-by event db (paid_up booking settles n bookings payments) id =
    rw bookings (elim (status_of-confirm booking id db) [
      | inl same ↦ inl same
      | inr (e, before, now) ↦ inr (subst (λ k. Settles event k db) e settles, before, now)
    ])

closed-by :
    (event : ParsedPaymentEvent) (db : Db) {notified : List ℕ} {after : Db}
    → Effect event db notified after
    → (id : ℕ) → PaymentMoves event id db after
closed-by event db (no_change bookings payments) id = inl (rw payments)
closed-by event db (failed_only o bookings payments) id =
    rw payments (elim (payment_status_of-close event.order_id id failed db) [
      | inl same ↦ inl same
      | inr (e, before, now) ↦ inr (e, before, inr (o, now))
    ])
closed-by event db (paid_up booking settles n bookings payments) id =
    rw payments (elim (payment_status_of-close event.order_id id paid db) [
      | inl same ↦ inl same
      | inr (e, before, now) ↦ inr (e, before, inl (settles.outcome, now))
    ])

-- A delivery changes the status of a booking only from pending_payment to confirmed, and only when
-- the event is the settlement of a payment of that booking for exactly the amount charged; and the
-- status of a payment only for the order that the event names, from pending to paid on a
-- settlement and to failed on a failure.
pub deliver_moves :
    (provider : String) (event : ParsedPaymentEvent) (db : Db) (id : ℕ) {notified : List ℕ}
    {after : Db}
    → deliver provider event db ≡ ok (notified, after)
    → BookingMoves event id db after × PaymentMoves event id db after
deliver_moves provider event db id e =
    let effect = deliver-Effect provider event db e in
    (confirmed-by event db effect id, closed-by event db effect id)
