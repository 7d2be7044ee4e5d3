-- ===== src/Payments.antt =====
-- apps/api/src/payments: the port to the payment provider (payment-gateway.ts), the vocabulary of its
-- adapter (midtrans.gateway.ts), the credential of a tenant and the deposit. What a provider answers
-- is the record `Gateway`, an argument of the operations. An order id is a payment's uuid.
pub mod Keeps
pub mod Decided
pub mod Webhook
pub mod Pay
pub mod Confirmation
use sambung.Common.{ℕ, ◌*◌, ◌/◌, String, Bool, not, ◌||◌, Option, none, some, str_eq, if◌then◌else◌}
use sambung.Db.Tx.{
  payments_not_configured, Result, Tx, ◌>>=◌, ◌>>◌, pure, or_throw, ok, err, read,
  internal_server_error,
}
use sambung.Booking.{contains}
use sambung.Db.Schema.{Db}

pub data PaymentOutcome : Type 0 where
  settlement failure pending ignored : PaymentOutcome

capture_outcome : Option String → PaymentOutcome
capture_outcome none = failure
capture_outcome (some fraud_status) =
    if str_eq fraud_status "accept"
    then settlement
    else if str_eq fraud_status "challenge"
    then pending
    else failure

-- `midtransOutcome`
unfoldable pub midtrans_outcome : String → Option String → PaymentOutcome
unfolding capture_outcome
midtrans_outcome transaction_status fraud_status =
    if str_eq transaction_status "capture"
    then capture_outcome fraud_status
    else if str_eq transaction_status "settlement"
    then settlement
    else if str_eq transaction_status "pending"
    then pending
    else if str_eq transaction_status "deny"
        || str_eq transaction_status "cancel"
        || str_eq transaction_status "expire"
        || str_eq transaction_status "failure"
    then failure
    else ignored

-- `raw`, the payload that is kept for the audit, is left out.
pub record ParsedPaymentEvent : Type 0 where
  pub provider_event_id : String
  pub order_id : ℕ
  pub outcome : PaymentOutcome
  pub gross_amount_idr : ℕ

-- The decrypted key of a tenant, or the stand-in of a gateway that needs none.
pub data GatewayCredential : Type 0 where
  fake : GatewayCredential
  key_of : ℕ → GatewayCredential

pub record CreateSessionInput : Type 0 where
  pub order_id : ℕ
  pub amount_idr : ℕ

pub record PaymentSession : Type 0 where
  pub token : String
  pub redirect_url : String

-- `PaymentGateway`, for webhook bodies of type `Body`.
pub record Gateway (Body : Type 0) : Type 0 where
  pub provider : String
  pub requires_credentials : Bool
  pub create_session : CreateSessionInput → GatewayCredential → Result PaymentSession
  pub peek_order_id : Body → Option ℕ
  pub verify_and_parse : Body → GatewayCredential → Result ParsedPaymentEvent
  pub fetch_status : ℕ → GatewayCredential → Result (Option ParsedPaymentEvent)

-- `maybeResolve`: an unset or wrong encryption key is thrown on, a 500.
abbrev pub maybe_resolve : ℕ → Db → Result (Option GatewayCredential)
maybe_resolve tenant db =
    if not (contains tenant db.credentials)
    then ok none
    else if contains tenant db.sealed
    then err internal_server_error
    else ok (some (key_of tenant))

-- `forGatewayOrThrow`
unfoldable pub for_gateway_or_throw : Bool → ℕ → Tx GatewayCredential
for_gateway_or_throw requires tenant =
    if not requires
    then pure fake
    else do found ← read (maybe_resolve tenant); or_throw found payments_not_configured

unfoldable pub deposit_amount_idr : ℕ → ℕ → ℕ
deposit_amount_idr total_price_idr pct = total_price_idr * pct / 100
