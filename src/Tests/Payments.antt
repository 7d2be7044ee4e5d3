-- ===== src/Tests/Payments.antt =====
-- Runs of the payments, a settlement delivered twice, late, and pulled.
use sambung.Payments.Pay.Retry.{pay_again}
use sambung.Payments.Confirmation.Reading.{Settled, get_confirmation_confirms}
use sambung.Payments.Pay.Deposit.{deposit_amount_idr_bounds}
use sambung.Payments.Pay.{PaymentSessionResponse, find_pending_payment_order_id, pay}
use sambung.Payments.Confirmation.{get_confirmation}
use sambung.Common.{
  ◌≤◌, ◌<◌, ◌+◌, ◌*◌, arith, true, ◌≡◌, refl, none, some, [], ◌∷◌, ◌==◌, if◌then◌else◌,
}
use sambung.Db.Tx.{unauthorized, Result, ok, err, internal_server_error}
use sambung.Db.Schema.{pending_payment, Payment, PaymentStatus, paid, confirmed, Db}
use sambung.Payments.{
  deposit_amount_idr, PaymentOutcome, ParsedPaymentEvent, Gateway, GatewayCredential, key_of,
  midtrans_outcome,
}
use sambung.Payments.Webhook.{is_event, credential_for_order, deliver, handle}
use sambung.Payments.Webhook.Redelivery.{handle_again}
use sambung.Payments.Webhook.Statuses.{
  deliver_moves, BookingMoves, PaymentMoves, status_of, payment_status_of,
}
use sambung.Payments.Webhook.Settlement.{deliver_settles}
use sambung.Tests.Data.{stay, tables}

abbrev pub deposit : Payment
deposit = record {
  id = 900;
  booking_id = 101;
  provider = "midtrans";
  amount_idr = 500000;
  status = PaymentStatus.pending;
  session = some ("token", "https://pay.example");
  created_at = 900;
}

abbrev pub awaiting : Db
awaiting = record tables { payments = deposit ∷ [] }

abbrev pub paid_in : ParsedPaymentEvent
paid_in = record {
  provider_event_id = "t1:settlement";
  order_id = 900;
  outcome = PaymentOutcome.settlement;
  gross_amount_idr = 500000;
}

-- A gateway whose bodies are events signed by a key.
abbrev pub signed_by :
    GatewayCredential → GatewayCredential → ParsedPaymentEvent → Result ParsedPaymentEvent
signed_by (key_of t) (key_of u) event = if t == u then ok event else err unauthorized
signed_by _ _ event = err unauthorized

abbrev pub gateway : Gateway (GatewayCredential × ParsedPaymentEvent)
gateway = record {
  provider = "midtrans";
  requires_credentials = true;
  create_session =
      λ input key. ok (record { token = "token"; redirect_url = "https://pay.example" });
  peek_order_id = λ body. some (body.1).order_id;
  verify_and_parse = λ body key. signed_by body.0 key body.1;
  fetch_status = λ order key. ok none;
}

abbrev pub settled_tables : Db
settled_tables = record awaiting {
  bookings = stay 100 confirmed 100 103 ∷ stay 101 confirmed 103 105 ∷ [];
  payments = record deposit { status = paid } ∷ [];
  payment_events =
      record { provider = "midtrans"; provider_event_id = "t1:settlement"; booking_id = 101 } ∷ [];
}

first_delivery :
    handle gateway "midtrans" (key_of 7, paid_in) awaiting ≡ ok (101 ∷ [], settled_tables)
unfolding handle
first_delivery = refl

-- A credential that the configured key does not open.
sealed_credential :
    handle gateway "midtrans" (key_of 7, paid_in) (record awaiting { sealed = 7 ∷ [] })
    ≡ err internal_server_error
unfolding handle credential_for_order
sealed_credential = refl

forged : handle gateway "midtrans" (key_of 8, paid_in) awaiting ≡ err unauthorized
unfolding handle
forged = refl

handle_again_example :
    handle gateway "midtrans" (key_of 7, paid_in) settled_tables ≡ ok ([], settled_tables)
handle_again_example = handle_again gateway "midtrans" (key_of 7, paid_in) awaiting first_delivery

first_event : deliver "midtrans" paid_in awaiting ≡ ok (101 ∷ [], settled_tables)
unfolding deliver
first_event = refl

deliver_moves_example :
    BookingMoves paid_in 101 awaiting settled_tables
    × PaymentMoves paid_in 101 awaiting settled_tables
deliver_moves_example = deliver_moves "midtrans" paid_in awaiting 101 first_event

deliver_settles_example :
    (after : Db) × (deliver "midtrans" paid_in awaiting ≡ ok (101 ∷ [], after))
    × (status_of 101 after ≡ some confirmed)
    × (payment_status_of 900 after ≡ some paid)
deliver_settles_example =
    deliver_settles "midtrans" paid_in awaiting 101
      (record { payment = deposit; found = refl; of_booking = refl; outcome = refl; amount = refl })
      refl refl refl refl

challenged : midtrans_outcome "capture" (some "challenge") ≡ PaymentOutcome.pending
unfolding midtrans_outcome
challenged = refl

deposit_amount_idr_bounds_example :
    (deposit_amount_idr 999999 33 ≤ 999999)
    × (deposit_amount_idr 999999 33 * 100 ≤ 999999 * 33)
    × (999999 * 33 < deposit_amount_idr 999999 33 * 100 + 100)
    × (deposit_amount_idr 999999 100 ≡ 999999)
deposit_amount_idr_bounds_example = deposit_amount_idr_bounds 999999 33 (ground arith)

-- The session of the first pay, at moment 500, for half of the price.
abbrev session_response : PaymentSessionResponse
session_response = record {
  provider = "midtrans";
  token = "token";
  redirect_url = "https://pay.example";
  amount_idr = 500000;
  deposit = true;
}

first_pay :
    pay gateway (λ url. true) 500 900 101 tables
    ≡ ok (session_response, record tables { payments = record deposit { created_at = 500 } ∷ [] })
unfolding pay sambung.Payments.Pay.enter_from_booking_id sambung.Payments.for_gateway_or_throw
    sambung.Payments.Pay.lock_and_load sambung.Booking.expire_lapsed_holds
    sambung.Payments.Pay.read_status sambung.Payments.Pay.find_open_session
    sambung.Availability.to_rupiah deposit_amount_idr
    sambung.Payments.Pay.insert_payment_with_session sambung.Payments.Pay.to_response
first_pay = refl

pay_again_example :
    (end : Db) × (pay gateway
        (λ url. true)
        600
        901
        101
        (record tables { payments = record deposit { created_at = 500 } ∷ [] })
      ≡ ok (session_response, end))
    × (end.payments ≡ record deposit { created_at = 500 } ∷ [])
pay_again_example = pay_again gateway (λ url. true) 101 500 900 600 901 tables first_pay refl

-- The provider has the money, and no webhook came.
abbrev silent_gateway : Gateway (GatewayCredential × ParsedPaymentEvent)
silent_gateway = record gateway { fetch_status = λ order key. ok (some paid_in) }

abbrev unheard : Settled silent_gateway 101 awaiting
unfolding find_pending_payment_order_id credential_for_order is_event
unheard = record {
  row = stay 101 pending_payment 103 105;
  found = refl;
  pending = refl;
  order = 900;
  awaited = refl;
  credential = key_of 7;
  resolves = refl;
  event = paid_in;
  reports = refl;
  settles = record {
    payment = deposit;
    found = refl;
    of_booking = refl;
    outcome = refl;
    amount = refl;
  };
  unpaid = refl;
  unseen = refl;
}

-- The hold has lapsed at moment 2000, and is confirmed all the same.
get_confirmation_confirms_example :
    ((get_confirmation silent_gateway 2000 101 awaiting).notified ≡ 101 ∷ [])
    × (status_of 101 (get_confirmation silent_gateway 2000 101 awaiting).after ≡ some confirmed)
get_confirmation_confirms_example =
    get_confirmation_confirms silent_gateway 2000 101 awaiting unheard
