-- ===== src/Payments/Pay.antt =====
-- `PaymentsService.pay` (apps/api/src/payments/payments.service.ts) over `PaymentsRepository`
-- (apps/api/src/payments/payments.repository.ts). The row lock makes the pays of a booking a sequence.
-- The names and the guest's contact that only prefill the provider's form are left out.
pub mod Keeps
pub mod Session
pub mod Paid
pub mod Deposit
pub mod Retry
use sambung.Common.Int.{pos}
use sambung.Common.{
  option_map, ℕ, String, Bool, false, not, ◌&&◌, Option, none, some, List, [], ◌∷◌, ltb, ◌==◌,
  str_eq, if◌then◌else◌, find, any, select,
}
use sambung.Db.Tx.{
  read, violates, payment_pkey, internal_server_error, booking_not_payable, Result, ok, err, Error,
  Tx, ◌>>=◌, ◌>>◌, pure, query, modify, guard, or_throw, lift,
}
use sambung.Db.Schema.{
  BookingStatus, is_pending, Booking, UnitRow, Property, PaymentStatus, is_unpaid, Payment, Db,
}
use sambung.Availability.{to_rupiah}
use sambung.Booking.{expire_lapsed_holds}
use sambung.Payments.{GatewayCredential, Gateway, for_gateway_or_throw, deposit_amount_idr}

pub record PayContext : Type 0 where
  pub unit_id : ℕ
  pub total_price_idr : Option ℕ
  pub deposit_pct : ℕ

pub record OpenSession : Type 0 where
  pub provider : String
  pub amount_idr : ℕ
  pub token : String
  pub redirect_url : String

pub record PaymentSessionResponse : Type 0 where
  pub provider : String
  pub token : String
  pub redirect_url : String
  pub amount_idr : ℕ
  pub deposit : Bool

-- `booking.id` is the primary key.
unfoldable pub enter_from_booking_id : ℕ → Tx ℕ
enter_from_booking_id id = do
  row ← query (λ db. find (λ b. b.id == id) db.bookings)
  b ← or_throw row Error.not_found
  pure b.tenant_id

abbrev pub own_booking : ℕ → ℕ → Db → Option Booking
own_booking tenant id db = find (λ b. b.id == id && b.tenant_id == tenant) db.bookings

join_pay_property : Booking → Option Property → Option PayContext
join_pay_property b none = none
join_pay_property b (some p) = some (record {
  unit_id = b.unit_id;
  total_price_idr = b.total_price_idr;
  deposit_pct = p.deposit_pct;
})

join_pay_unit : ℕ → Db → Booking → Option UnitRow → Option PayContext
unfolding join_pay_property
join_pay_unit tenant db b none = none
join_pay_unit tenant db b (some u) =
    join_pay_property b (find (λ p. p.id == u.property_id && p.tenant_id == tenant) db.properties)

pay_context : ℕ → Db → Option Booking → Option PayContext
unfolding join_pay_unit
pay_context tenant db none = none
pay_context tenant db (some b) =
    join_pay_unit tenant db b (find (λ u. u.id == b.unit_id && u.tenant_id == tenant) db.units)

unfoldable pub lock_and_load : ℕ → ℕ → Db → Option PayContext
unfolding pay_context
lock_and_load tenant id db = pay_context tenant db (own_booking tenant id db)

unfoldable pub read_status : ℕ → ℕ → Db → Option BookingStatus
read_status tenant id db = option_map (λ b. b.status) (own_booking tenant id db)

-- `ORDER BY created_at DESC LIMIT 1`
pick_newest : Payment → Option Payment → Option Payment
pick_newest p none = some p
pick_newest p (some q) = if ltb p.created_at q.created_at then some q else some p

pub newest : List Payment → Option Payment
unfolding pick_newest
newest [] = none
newest (p ∷ ps) = pick_newest p (newest ps)

-- The booking's pending payments.
abbrev pub open_payments : ℕ → Db → List Payment
open_payments booking db = select (λ p. p.booking_id == booking && is_unpaid p.status) db.payments

-- A pending row without a well-formed session is corrupt: a 500.
open_session : Payment → Option (String × String) → Result (Option OpenSession)
open_session p none = err internal_server_error
open_session p (some (token, redirect_url)) = ok (
    some (record {
      provider = p.provider;
      amount_idr = p.amount_idr;
      token = token;
      redirect_url = redirect_url;
    }))

session_of : Option Payment → Result (Option OpenSession)
unfolding open_session
session_of none = ok none
session_of (some p) = open_session p p.session

unfoldable pub find_open_session : ℕ → Db → Result (Option OpenSession)
unfolding session_of newest
find_open_session booking db = session_of (newest (open_payments booking db))

unfoldable pub find_pending_payment_order_id : ℕ → Db → Option ℕ
unfolding newest
find_pending_payment_order_id booking db =
    option_map (λ p. p.id) (newest (open_payments booking db))

unfoldable pub insert_payment_with_session : Payment → Tx (Unit {0})
insert_payment_with_session p = do
  taken ← query (λ db. any (λ q. q.id == p.id) db.payments)
  guard (not taken) (violates payment_pkey)
  modify λ db. record db { payments = p ∷ db.payments }

is_provider : String → Bool
is_provider provider = str_eq provider "midtrans"

frame_session : (String → Bool) → OpenSession → ℕ → Result ℕ → Result PaymentSessionResponse
unfolding is_provider
frame_session is_url s total (err e) = err e
frame_session is_url s total (ok amount) =
    if is_provider s.provider && is_url s.redirect_url
    then ok (record {
      provider = s.provider;
      token = s.token;
      redirect_url = s.redirect_url;
      amount_idr = amount;
      deposit = ltb s.amount_idr total;
    })
    else err internal_server_error

-- `is_url` is the test of `z.string().url()`; a response that does not parse is a 500.
unfoldable pub to_response : (String → Bool) → OpenSession → ℕ → Result PaymentSessionResponse
unfolding frame_session
to_response is_url s total = frame_session is_url s total (to_rupiah (pos s.amount_idr))

abbrev or_expired : Option BookingStatus → BookingStatus
or_expired none = BookingStatus.expired
or_expired (some status) = status

abbrev pub is_payable : Option BookingStatus → Bool
is_payable none = false
is_payable (some status) = is_pending status

module _ {Body : Type 0} (gateway : Gateway Body) (is_url : String → Bool)
    (now new_id booking : ℕ) where
  unfoldable pub mint : GatewayCredential → PayContext → ℕ → Tx PaymentSessionResponse
  mint credential ctx total = do
    charged ← lift (to_rupiah (pos (deposit_amount_idr total ctx.deposit_pct)))
    session ←
        lift
          (gateway.create_session (record { order_id = new_id; amount_idr = charged }) credential)
    insert_payment_with_session (record {
      id = new_id;
      booking_id = booking;
      provider = gateway.provider;
      amount_idr = deposit_amount_idr total ctx.deposit_pct;
      status = PaymentStatus.pending;
      session = some (session.token, session.redirect_url);
      created_at = now;
    })
    lift (
        to_response is_url
          (record {
            provider = gateway.provider;
            amount_idr = deposit_amount_idr total ctx.deposit_pct;
            token = session.token;
            redirect_url = session.redirect_url;
          })
          total)

  -- An open session is returned unchanged.
  pub reuse_or_mint :
      GatewayCredential → PayContext → ℕ → Option OpenSession → Tx PaymentSessionResponse
  unfolding mint
  reuse_or_mint credential ctx total (some session) = lift (to_response is_url session total)
  reuse_or_mint credential ctx total none = mint credential ctx total

  -- The transaction.
  unfoldable pub pay_locked : ℕ → GatewayCredential → Tx PaymentSessionResponse
  unfolding reuse_or_mint
  pay_locked tenant credential = do
    locked ← query (lock_and_load tenant booking)
    ctx ← or_throw locked (booking_not_payable BookingStatus.expired)
    expire_lapsed_holds tenant now ctx.unit_id
    status ← query (read_status tenant booking)
    guard (is_payable status) (booking_not_payable (or_expired status))
    total ← or_throw ctx.total_price_idr internal_server_error
    open_session ← read (find_open_session booking)
    reuse_or_mint credential ctx total open_session

  unfoldable pub pay : Tx PaymentSessionResponse
  unfolding pay_locked
  pay = do
    tenant ← enter_from_booking_id booking
    credential ← for_gateway_or_throw gateway.requires_credentials tenant
    pay_locked tenant credential
