-- ===== src/Payments/Webhook/Once.antt =====
-- Each event acts once (apps/api/src/payments/payment-webhook.service.ts): the event's unique
-- constraint is the arbiter.
use sambung.Common.{
  ℕ, ◌≡◌, refl, inl, inr, String, Bool, true, false, none, some, List, [], ◌∷◌, ◌==◌, str_eq,
  eq_iff, any, arith, Bool-cases,
}
use sambung.Db.Tx.{ok}
use sambung.Db.Schema.{Payment, PaymentStatus, Db}
use sambung.Db.Bookings.{update_where}
use sambung.Payments.{PaymentOutcome, ignored, ParsedPaymentEvent}
use sambung.Payments.Webhook.{
  after_commit, ApplyResult, payment_by_id, is_event, insert_event, close_payment, confirm_booking,
  transition, apply_outcome, deliver,
}

-- The order is one of ours, and the event is in the table.
abbrev pub is_known : ParsedPaymentEvent → Db → Bool
is_known event db = any (λ p. p.id == event.order_id) db.payments

abbrev pub is_recorded : String → ParsedPaymentEvent → Db → Bool
is_recorded provider event db = any (is_event provider event.provider_event_id) db.payment_events

str_eq_refl : (s : String) → str_eq s s ≡ true
str_eq_refl s = (eq_iff s s).1 refl

is_event_refl :
    (provider event_id : String) (booking : ℕ)
    → is_event provider event_id
        (record { provider = provider; provider_event_id = event_id; booking_id = booking })
      ≡ true
unfolding is_event
is_event_refl provider event_id booking = rw (str_eq_refl provider, str_eq_refl event_id)

find_unknown :
    (id : ℕ) (ps : List Payment) → any (λ p. p.id == id) ps ≡ false → payment_by_id id ps ≡ none
find_unknown id [] h = refl
find_unknown id (p ∷ ps) h = ground (arith, find_unknown id ps)

pub find_known :
    (id : ℕ) (ps : List Payment)
    → any (λ p. p.id == id) ps ≡ true
    → (p : Payment) × (payment_by_id id ps ≡ some p)
find_known id [] h = ground arith
find_known id (p ∷ ps) h = elim (Bool-cases (p.id == id)) [
  | inl y ↦ (p, rw y)
  | inr n ↦ (let (q, e) = find_known id ps (ground arith) in (q, rw n e))
]

same_ids :
    (id : ℕ) (q : Payment → Bool) (status : PaymentStatus) (ps : List Payment)
    → any (λ p. p.id == id) (update_where q (λ p. record p { status = status }) ps)
      ≡ any (λ p. p.id == id) ps
same_ids id q status [] = refl
same_ids id q status (p ∷ ps) = ground (arith, same_ids id q status ps)

-- What the transition leaves alone.
record Untouched (db : Db) (after : Db) : Type 0 where
  events : after.payment_events ≡ db.payment_events
  ids : (id : ℕ) → any (λ p. p.id == id) after.payments ≡ any (λ p. p.id == id) db.payments

transition-Untouched :
    (outcome : PaymentOutcome) (pay : Payment) (db : Db)
    → (r : ApplyResult) × (after : Db) × (transition outcome pay db ≡ ok (r, after))
      × Untouched db after
unfolding transition close_payment confirm_booking
transition-Untouched PaymentOutcome.settlement pay db =
    (_, _, refl, record { events = refl; ids = λ id. same_ids id _ _ db.payments })
transition-Untouched PaymentOutcome.failure pay db =
    (_, _, refl, record { events = refl; ids = λ id. same_ids id _ _ db.payments })
transition-Untouched PaymentOutcome.pending pay db =
    (_, _, refl, record { events = refl; ids = λ id. refl })
transition-Untouched ignored pay db = (_, _, refl, record { events = refl; ids = λ id. refl })

apply_outcome-Untouched :
    (event : ParsedPaymentEvent) (pay : Payment) (db : Db)
    → (r : ApplyResult) × (after : Db) × (apply_outcome event pay db ≡ ok (r, after))
      × Untouched db after
unfolding apply_outcome
apply_outcome-Untouched event pay db =
    elim (Bool-cases (event.gross_amount_idr == pay.amount_idr)) [
      | inl y ↦ rw y (transition-Untouched event.outcome pay db)
      | inr n ↦ rw n (_, _, refl, record { events = refl; ids = λ id. refl })
    ]

pub deliver-unknown :
    (provider : String) (event : ParsedPaymentEvent) (db : Db)
    → is_known event db ≡ false
    → deliver provider event db ≡ ok ([], db)
unfolding deliver
deliver-unknown provider event db h = rw (find_unknown event.order_id db.payments h)

-- An event that is in the table acts no more.
pub deliver-recorded :
    (provider : String) (event : ParsedPaymentEvent) (db : Db)
    → is_recorded provider event db ≡ true
    → deliver provider event db ≡ ok ([], db)
unfolding deliver insert_event
deliver-recorded provider event db h = elim (Bool-cases (is_known event db)) [
  | inl y ↦ (let (p, e) = find_known event.order_id db.payments y in rw (e, h))
  | inr n ↦ deliver-unknown provider event db n
]

-- A delivery does not fail, and leaves its event in the table if the order is known.
pub deliver_records :
    (provider : String) (event : ParsedPaymentEvent) (db : Db)
    → is_known event db ≡ true
    → (notified : List ℕ) × (after : Db) × (deliver provider event db ≡ ok (notified, after))
      × (is_recorded provider event after ≡ true)
unfolding deliver insert_event
deliver_records provider event db h = elim (Bool-cases (is_recorded provider event db)) [
  | inl y ↦ ([], db, deliver-recorded provider event db y, y)
  | inr n ↦ acted n (find_known event.order_id db.payments h)
]
  where
    acted :
        is_recorded provider event db ≡ false
        → (p : Payment) × (payment_by_id event.order_id db.payments ≡ some p)
        → (notified : List ℕ) × (after : Db) × (deliver provider event db ≡ ok (notified, after))
          × (is_recorded provider event after ≡ true)
    acted n (p, e) =
        let stored : Db = record db {
          payment_events =
              record {
                provider = provider;
                provider_event_id = event.provider_event_id;
                booking_id = p.booking_id;
              }
              ∷ db.payment_events;
        } in
        let (r, after, acts, u) = apply_outcome-Untouched event p stored in
        (
          after_commit r,
          after,
          rw (e, n) (rw acts),
          rw u.events (rw (is_event_refl provider event.provider_event_id p.booking_id)),
        )

pub deliver_again :
    (provider : String) (event : ParsedPaymentEvent) (db : Db)
    → (notified : List ℕ) × (after : Db) × (deliver provider event db ≡ ok (notified, after))
      × (deliver provider event after ≡ ok ([], after))
deliver_again provider event db = elim (Bool-cases (is_known event db)) [
  | inl y ↦
      (let (ns, after, e, r) = deliver_records provider event db y in
        (ns, after, e, deliver-recorded provider event after r))
  | inr n ↦ ([], db, deliver-unknown provider event db n, deliver-unknown provider event db n)
]
