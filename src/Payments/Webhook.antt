-- ===== src/Payments/Webhook.antt =====
-- `PaymentWebhookService` (apps/api/src/payments/payment-webhook.service.ts): a delivery by the
-- provider, and the pull of its status. Each returns the bookings whose confirmation it notified.
pub mod Once
pub mod Effect
pub mod Keeps
pub mod Emits
pub mod Redelivery
pub mod Statuses
pub mod Settlement
use sambung.Common.{
  false, [], ℕ, String, Bool, true, not, ◌&&◌, Option, none, some, List, ◌∷◌, ◌==◌, str_eq,
  if◌then◌else◌, find, any,
}
use sambung.Db.Tx.{
  Constraint, payment_event_provider_event_uniq, bad_request, violates, Result, ok, err, Error, Tx,
  ◌>>=◌, ◌>>◌, pure, query, modify, guard, or_throw, lift, read,
}
use sambung.Booking.{set_status}
use sambung.Db.Bookings.{update_where}
use sambung.Payments.{
  ignored, fake, maybe_resolve, GatewayCredential, ParsedPaymentEvent, PaymentOutcome, Gateway,
}
use sambung.Db.Schema.{
  failed, paid, is_pending, is_unpaid, Booking, Payment, PaymentEvent, PaymentStatus, Db, confirmed,
}

pub data ApplyResult : Type 0 where
  unknown_order : ApplyResult
  amount_mismatch : ℕ → ℕ → ℕ → ApplyResult
  settled : ℕ → Bool → ApplyResult
  failed_payment : ℕ → ApplyResult
  noop : PaymentOutcome → ApplyResult

abbrev pub payment_by_id : ℕ → List Payment → Option Payment
payment_by_id id payments = find (λ p. p.id == id) payments

abbrev pub booking_by_id : ℕ → List Booking → Option Booking
booking_by_id id bookings = find (λ b. b.id == id) bookings

-- The key of `payment_event_provider_event_uniq`.
unfoldable pub is_event : String → String → PaymentEvent → Bool
is_event provider event_id e = str_eq e.provider provider && str_eq e.provider_event_id event_id

unfoldable pub insert_event : String → String → ℕ → Tx (Unit {0})
unfolding is_event
insert_event provider event_id booking = do
  recorded ← query (λ db. any (is_event provider event_id) db.payment_events)
  guard (not recorded) (violates payment_event_provider_event_uniq)
  modify λ db. record db {
    payment_events =
        record { provider = provider; provider_event_id = event_id; booking_id = booking }
        ∷ db.payment_events;
  }

-- `UPDATE payment SET status WHERE id AND status = 'pending'`
unfoldable pub close_payment : ℕ → PaymentStatus → Db → Db
close_payment id status db = record db {
  payments =
      update_where (λ p. p.id == id && is_unpaid p.status) (λ p. record p { status = status })
        db.payments;
}

-- The WHERE of the guarded confirm.
unfoldable pub is_confirmable : ℕ → Booking → Bool
is_confirmable id b = b.id == id && is_pending b.status

unfoldable pub confirm_booking : ℕ → Db → Db
unfolding is_confirmable
confirm_booking id db = record db {
  bookings = update_where (is_confirmable id) (set_status confirmed) db.bookings;
}

-- The transition on the event's outcome.
unfoldable pub transition : PaymentOutcome → Payment → Tx ApplyResult
unfolding close_payment confirm_booking is_confirmable
transition PaymentOutcome.settlement pay = do
  modify (close_payment pay.id paid)
  matched ← query (λ db. any (is_confirmable pay.booking_id) db.bookings)
  modify (confirm_booking pay.booking_id)
  pure (settled pay.booking_id matched)
transition PaymentOutcome.failure pay = do
  modify (close_payment pay.id failed)
  pure (failed_payment pay.booking_id)
transition PaymentOutcome.pending pay = pure (noop PaymentOutcome.pending)
transition ignored pay = pure (noop ignored)

unfoldable pub apply_outcome : ParsedPaymentEvent → Payment → Tx ApplyResult
unfolding transition
apply_outcome event pay =
    if not (event.gross_amount_idr == pay.amount_idr)
    then pure (amount_mismatch pay.booking_id pay.amount_idr event.gross_amount_idr)
    else transition event.outcome pay

record_and_apply : String → ParsedPaymentEvent → Option Payment → Tx ApplyResult
unfolding insert_event apply_outcome
record_and_apply provider event none = pure unknown_order
record_and_apply provider event (some pay) = do
  insert_event provider event.provider_event_id pay.booking_id
  apply_outcome event pay

unfoldable pub apply : String → ParsedPaymentEvent → Tx ApplyResult
unfolding record_and_apply
apply provider event = do
  pay ← query (λ db. payment_by_id event.order_id db.payments)
  record_and_apply provider event pay

-- The bookings that `afterCommit` notifies: of the results, a fresh confirmation alone.
abbrev pub after_commit : ApplyResult → List ℕ
after_commit (settled booking true) = booking ∷ []
after_commit _ = []

abbrev pub is_duplicate : Error → Bool
is_duplicate (violates Constraint.payment_event_provider_event_uniq) = true
is_duplicate _ = false

-- The `try` around the transaction: the violation of the event's constraint is a duplicate.
abbrev pub absorb_duplicate : Db → Result (ApplyResult × Db) → Result (List ℕ × Db)
absorb_duplicate db (ok (result, after)) = ok (after_commit result, after)
absorb_duplicate db (err e) = if is_duplicate e then ok ([], db) else err e

unfoldable pub deliver : String → ParsedPaymentEvent → Tx (List ℕ)
unfolding apply
deliver provider event db = absorb_duplicate db (apply provider event db)

abbrev pub tenant_of : Option Booking → Option ℕ
tenant_of none = none
tenant_of (some b) = some b.tenant_id

abbrev join_tenant : Db → Option Payment → Option ℕ
join_tenant db none = none
join_tenant db (some pay) = tenant_of (booking_by_id pay.booking_id db.bookings)

abbrev resolve_tenant : Db → Option ℕ → Result (Option GatewayCredential)
resolve_tenant db none = ok none
resolve_tenant db (some tenant) = maybe_resolve tenant db

unfoldable pub credential_for_order : Bool → ℕ → Db → Result (Option GatewayCredential)
credential_for_order requires order db =
    if not requires
    then ok (some fake)
    else resolve_tenant db (join_tenant db (payment_by_id order db.payments))

module _ {Body : Type 0} (gateway : Gateway Body) where
  pub handle_with : Body → Option GatewayCredential → Tx (List ℕ)
  unfolding deliver
  handle_with body none = pure []
  handle_with body (some credential) = do
    event ← lift (gateway.verify_and_parse body credential)
    deliver gateway.provider event

  -- `resolveProvider` answers 404 for any provider but the one that is bound.
  unfoldable pub handle : String → Body → Tx (List ℕ)
  unfolding handle_with credential_for_order
  handle provider body = do
    guard (str_eq provider "midtrans" && str_eq provider gateway.provider) Error.not_found
    order ← or_throw (gateway.peek_order_id body) bad_request
    credential ← read (credential_for_order gateway.requires_credentials order)
    handle_with body credential

  pulled : Option ParsedPaymentEvent → Tx (List ℕ)
  unfolding deliver
  pulled none = pure []
  pulled (some event) = deliver gateway.provider event

  pull_with : ℕ → Option GatewayCredential → Tx (List ℕ)
  unfolding pulled
  pull_with order none = pure []
  pull_with order (some credential) = do
    event ← lift (gateway.fetch_status order credential)
    pulled event

  unfoldable pub reconcile : ℕ → Tx (List ℕ)
  unfolding pull_with credential_for_order
  reconcile order = do
    credential ← read (credential_for_order gateway.requires_credentials order)
    pull_with order credential
