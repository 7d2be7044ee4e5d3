-- ===== src/Payments/Webhook/Effect.antt =====
-- The tables after a delivery (`applyOutcome` of apps/api/src/payments/payment-webhook.service.ts),
-- by its outcome.
use sambung.Common.{
  find_sound, sym, subst, ℕ, ◌≡◌, refl, ap, ◌∙◌, inl, inr, String, Bool, true, false, some, List,
  [], ◌∷◌, ◌==◌, if◌then◌else◌, any, Bool-cases, ==_iff,
}
use sambung.Db.Tx.{err, Result, ok}
use sambung.Db.Schema.{PaymentStatus, paid, failed, Payment, Db}
use sambung.Payments.{PaymentOutcome, ignored, ParsedPaymentEvent}
use sambung.Payments.Webhook.{
  settled, ApplyResult, payment_by_id, is_confirmable, insert_event, close_payment, confirm_booking,
  transition, apply_outcome, after_commit, deliver,
}
use sambung.Payments.Webhook.Once.{
  is_known, is_recorded, deliver-recorded, deliver-unknown, find_known,
}

-- The event is the settlement of a payment of that booking, of the amount that was charged.
pub record Settles (event : ParsedPaymentEvent) (booking : ℕ) (db : Db) : Type 0 where
  pub payment : Payment
  pub found : payment_by_id event.order_id db.payments ≡ some payment
  pub of_booking : payment.booking_id ≡ booking
  pub outcome : event.outcome ≡ PaymentOutcome.settlement
  pub amount : event.gross_amount_idr ≡ payment.amount_idr

pub data Effect (event : ParsedPaymentEvent) (db : Db) : List ℕ → Db → Type 0 where
  no_change :
      {after : Db}
      → after.bookings ≡ db.bookings
      → after.payments ≡ db.payments
      → Effect event db [] after
  failed_only :
      {after : Db}
      → event.outcome ≡ PaymentOutcome.failure
      → after.bookings ≡ db.bookings
      → after.payments ≡ (close_payment event.order_id failed db).payments
      → Effect event db [] after
  paid_up :
      {notified : List ℕ} {after : Db} (booking : ℕ)
      → Settles event booking db
      → notified ≡ (if any (is_confirmable booking) db.bookings then booking ∷ [] else [])
      → after.bookings ≡ (confirm_booking booking db).bookings
      → after.payments ≡ (close_payment event.order_id paid db).payments
      → Effect event db notified after

pub record Delivered (provider : String) (event : ParsedPaymentEvent) (db : Db) : Type 0 where
  pub notified : List ℕ
  pub after : Db
  pub delivers : deliver provider event db ≡ ok (notified, after)
  pub effect : Effect event db notified after

after_commit-settled :
    (booking : ℕ) (matched : Bool)
    → after_commit (settled booking matched) ≡ (if matched then booking ∷ [] else [])
after_commit-settled booking true = refl
after_commit-settled booking false = refl

module _ (event : ParsedPaymentEvent) (db stored : Db) (p : Payment)
    (bookings : stored.bookings ≡ db.bookings) (payments : stored.payments ≡ db.payments)
    (found : payment_by_id event.order_id db.payments ≡ some p) where
  closed :
      (status : PaymentStatus)
      → (close_payment p.id status stored).payments
        ≡ (close_payment event.order_id status db).payments
  unfolding close_payment
  closed status = rw (
    payments,
    (==_iff p.id event.order_id).0 (find_sound (λ q. q.id == event.order_id) db.payments found),
  )

  confirmed_rows :
      (confirm_booking p.booking_id stored).bookings ≡ (confirm_booking p.booking_id db).bookings
  unfolding confirm_booking
  confirmed_rows = rw bookings

  transition-Effect :
      (o : PaymentOutcome)
      → event.outcome ≡ o
      → event.gross_amount_idr ≡ p.amount_idr
      → (r : ApplyResult) × (after : Db) × (transition o p stored ≡ ok (r, after))
        × Effect event db (after_commit r) after
  unfolding transition close_payment confirm_booking
  transition-Effect PaymentOutcome.settlement e amount = (
    _,
    _,
    refl,
    paid_up p.booking_id
        (record { payment = p; found = found; of_booking = refl; outcome = e; amount = amount })
        (after_commit-settled p.booking_id (any (is_confirmable p.booking_id) stored.bookings)
          ∙ ap (λ bs. if any (is_confirmable p.booking_id) bs then p.booking_id ∷ [] else [])
              bookings)
        confirmed_rows (closed paid),
  )
  transition-Effect PaymentOutcome.failure e amount =
      (_, _, refl, failed_only e bookings (closed failed))
  transition-Effect PaymentOutcome.pending e amount = (_, _, refl, no_change bookings payments)
  transition-Effect ignored e amount = (_, _, refl, no_change bookings payments)

  apply_outcome-Effect :
      (r : ApplyResult) × (after : Db) × (apply_outcome event p stored ≡ ok (r, after))
      × Effect event db (after_commit r) after
  unfolding apply_outcome
  apply_outcome-Effect = elim (Bool-cases (event.gross_amount_idr == p.amount_idr)) [
    | inl y ↦
        rw y
          (transition-Effect event.outcome refl ((==_iff event.gross_amount_idr p.amount_idr).0 y))
    | inr n ↦ rw n (_, _, refl, no_change bookings payments)
  ]

pub deliver-Delivered :
    (provider : String) (event : ParsedPaymentEvent) (db : Db) → Delivered provider event db
unfolding deliver insert_event
deliver-Delivered provider event db = elim (Bool-cases (is_known event db)) [
  | inl y ↦ elim (Bool-cases (is_recorded provider event db)) [
    | inl r ↦ record {
      notified = [];
      after = db;
      delivers = deliver-recorded provider event db r;
      effect = no_change refl refl;
    }
    | inr n ↦ acted n (find_known event.order_id db.payments y)
  ]
  | inr n ↦ record {
    notified = [];
    after = db;
    delivers = deliver-unknown provider event db n;
    effect = no_change refl refl;
  }
]
  where
    acted :
        is_recorded provider event db ≡ false
        → (p : Payment) × (payment_by_id event.order_id db.payments ≡ some p)
        → Delivered provider event db
    acted n (p, e) =
        let stored : Db = record db {
          payment_events =
              record {
                provider = provider;
                provider_event_id = event.provider_event_id;
                booking_id = p.booking_id;
              }
              ∷ db.payment_events;
        } in
        let (r, after, acts, effect) = apply_outcome-Effect event db stored p refl refl e in
        record {
          notified = after_commit r;
          after = after;
          delivers = rw (e, n) (rw acts);
          effect = effect;
        }

abbrev EffectOf : ParsedPaymentEvent → Db → Result (List ℕ × Db) → Type 0
EffectOf event db (ok (notified, after)) = Effect event db notified after
EffectOf event db (err e) = Unit

pub deliver-Effect :
    (provider : String) (event : ParsedPaymentEvent) (db : Db) {notified : List ℕ} {after : Db}
    → deliver provider event db ≡ ok (notified, after)
    → Effect event db notified after
deliver-Effect provider event db e =
    let d = deliver-Delivered provider event db in
    subst (EffectOf event db) (sym d.delivers ∙ e) d.effect
