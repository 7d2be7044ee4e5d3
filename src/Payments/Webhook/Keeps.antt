-- ===== src/Payments/Webhook/Keeps.antt =====
-- What the webhook's writes keep (apps/api/src/payments/payment-webhook.service.ts).
use sambung.Common.{
  ℕ, ◌≡◌, refl, inl, inr, String, true, ◌&&◌, Option, none, some, List, ◌∷◌, ◌==◌, if◌then◌else◌,
  arith, Bool-cases,
}
use sambung.Db.Tx.{committed, Result, ok, err, modify}
use sambung.Db.Schema.{
  pending_payment, is_pending, Payment, BookingStatus, occupying, confirmed, Booking, PaymentEvent,
  PaymentStatus, Db,
}
use sambung.Db.Overlap.{Narrows, Narrows-refl, IsConsistent, update-IsConsistent}
use sambung.Db.Keeps.{Keeps, keeps_rules}
use sambung.Booking.{set_status}
use sambung.Payments.{PaymentOutcome, ignored, ParsedPaymentEvent, GatewayCredential, Gateway}
use sambung.Payments.Webhook.{
  is_duplicate, ApplyResult, is_confirmable, insert_event, close_payment, confirm_booking,
  transition, apply_outcome, record_and_apply, apply, absorb_duplicate, deliver, handle_with,
  handle, pulled, pull_with, reconcile,
}

-- Kept by each of the three writes.
pub record Stable (P : Db → Type 0) : Type 0 where
  pub events : (es : List PaymentEvent) (db : Db) → P db → P (record db { payment_events = es })
  pub closes : (id : ℕ) (status : PaymentStatus) (db : Db) → P db → P (close_payment id status db)
  pub confirms : (id : ℕ) (db : Db) → P db → P (confirm_booking id db)

module _ {P : Db → Type 0} (stable : Stable P) where
  record-Keeps :
      (e : PaymentEvent)
      → Keeps P (modify λ db. record db { payment_events = e ∷ db.payment_events })
  record-Keeps e = record { at = λ db h. stable.events (e ∷ db.payment_events) db h }

  insert_event-Keeps :
      (provider event_id : String) (booking : ℕ) → Keeps P (insert_event provider event_id booking)
  unfolding insert_event
  insert_event-Keeps provider event_id booking = search (keeps_rules, record-Keeps) depth 8

  close-Keeps : (id : ℕ) (status : PaymentStatus) → Keeps P (modify (close_payment id status))
  close-Keeps id status = record { at = λ db h. stable.closes id status db h }

  confirm-Keeps : (id : ℕ) → Keeps P (modify (confirm_booking id))
  confirm-Keeps id = record { at = λ db h. stable.confirms id db h }

  transition-Keeps : (o : PaymentOutcome) (pay : Payment) → Keeps P (transition o pay)
  unfolding transition
  transition-Keeps PaymentOutcome.settlement pay =
      search (keeps_rules, close-Keeps, confirm-Keeps) depth 8
  transition-Keeps PaymentOutcome.failure pay = search (keeps_rules, close-Keeps) depth 8
  transition-Keeps PaymentOutcome.pending pay = search keeps_rules
  transition-Keeps ignored pay = search keeps_rules

  record_and_apply-Keeps :
      (provider : String) (event : ParsedPaymentEvent) (o : Option Payment)
      → Keeps P (record_and_apply provider event o)
  unfolding record_and_apply apply_outcome
  record_and_apply-Keeps provider event none = search keeps_rules
  record_and_apply-Keeps provider event (some pay) =
      search (keeps_rules, insert_event-Keeps, transition-Keeps) depth 8

  apply-Keeps : (provider : String) (event : ParsedPaymentEvent) → Keeps P (apply provider event)
  unfolding apply
  apply-Keeps provider event = search (keeps_rules, record_and_apply-Keeps) depth 6

  pub deliver-Keeps :
      (provider : String) (event : ParsedPaymentEvent) → Keeps P (deliver provider event)
  unfolding deliver
  deliver-Keeps provider event = record {
    at = λ db h. absorbed db (apply provider event db) h ((apply-Keeps provider event).at db h);
  }
    where
      absorbed :
          (db : Db) (r : Result (ApplyResult × Db))
          → P db
          → P (committed db r)
          → P (committed db (absorb_duplicate db r))
      absorbed db (ok (result, after)) h k = k
      absorbed db (err e) h k = elim (Bool-cases (is_duplicate e)) [
        | inl y ↦ rw y h
        | inr n ↦ rw n h
      ]

  module _ {Body : Type 0} (gateway : Gateway Body) where
    pub handle_with-Keeps :
        (body : Body) (o : Option GatewayCredential) → Keeps P (handle_with gateway body o)
    unfolding handle_with
    handle_with-Keeps body none = search keeps_rules
    handle_with-Keeps body (some c) = search (keeps_rules, deliver-Keeps) depth 6

    pub handle-Keeps : (provider : String) (body : Body) → Keeps P (handle gateway provider body)
    unfolding handle
    handle-Keeps provider body = search (keeps_rules, handle_with-Keeps) depth 8

    pulled-Keeps : (o : Option ParsedPaymentEvent) → Keeps P (pulled gateway o)
    unfolding pulled
    pulled-Keeps none = search keeps_rules
    pulled-Keeps (some event) = search (keeps_rules, deliver-Keeps) depth 4

    pull_with-Keeps :
        (order : ℕ) (o : Option GatewayCredential) → Keeps P (pull_with gateway order o)
    unfolding pull_with
    pull_with-Keeps order none = search keeps_rules
    pull_with-Keeps order (some c) = search (keeps_rules, pulled-Keeps) depth 6

    pub reconcile-Keeps : (order : ℕ) → Keeps P (reconcile gateway order)
    unfolding reconcile
    reconcile-Keeps order = search (keeps_rules, pull_with-Keeps) depth 8

-- A live hold occupies its nights already.
confirms-Narrows :
    (id : ℕ) (b : Booking) → Narrows b (if is_confirmable id b then set_status confirmed b else b)
unfolding is_confirmable occupying
confirms-Narrows id b = elim (Bool-cases (b.id == id && is_pending b.status)) [
  | inl e ↦ rw e (record {
    id_same = refl;
    unit_same = refl;
    check_in_same = refl;
    check_out_same = refl;
    tenant_same = refl;
    status_narrows = λ k. pending_occupies b.status (ground arith);
  })
  | inr e ↦ rw e (Narrows-refl b)
]
  where
    pending_occupies : (s : BookingStatus) → is_pending s ≡ true → occupying s ≡ true
    pending_occupies pending_payment h = refl
    pending_occupies confirmed h = refl
    pending_occupies BookingStatus.cancelled h = cc
    pending_occupies BookingStatus.expired h = cc

pub IsConsistent-Stable : Stable IsConsistent
unfolding close_payment confirm_booking
IsConsistent-Stable = record {
  events = λ es db h. record {
    unique_ids = h.unique_ids;
    no_overlap = h.no_overlap;
    own_units = h.own_units;
  };
  closes = λ id status db h. record {
    unique_ids = h.unique_ids;
    no_overlap = h.no_overlap;
    own_units = h.own_units;
  };
  confirms = λ id db h. update-IsConsistent _ (confirms-Narrows id) db h;
}
