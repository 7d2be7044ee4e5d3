-- ===== src/Booking.antt =====
-- apps/api/src/bookings: `BookingsRepository`, `BookingsService` and `HoldSweeperService`. The clock of
-- the database and the uuid of a new row are arguments. The texts of a guest stand as validated.
pub mod Invariant
pub mod Checkout
pub mod Decision
pub mod Race
pub mod Sweep
use sambung.Common.{
  [], ℕ, ◌+◌, ◌*◌, String, Bool, false, not, ◌&&◌, ◌||◌, Option, none, some, List, ◌∷◌, ◌++◌, ltb,
  leb, ◌==◌, if◌then◌else◌, any, non_empty, select, length,
}
use sambung.Common.Int.{ℤ, pos}
use sambung.Stay.{valid_window}
use sambung.Db.Schema.{
  BookingStatus, pending_payment, expired, is_pending, direct, UnitRow, Booking, Db,
}
use sambung.Db.Tx.{
  RefusalReason, max_guests, unavailable, Error, bad_request, internal_server_error,
  dates_unavailable, payments_not_configured, Tx, ◌>>=◌, ◌>>◌, pure, throw, query, modify, guard,
  or_throw, lift,
}
use sambung.Db.Bookings.{insert_booking, update_where, unit_by_id}
use sambung.Availability.{
  AvailabilityResponse, QuoteOutcome, quote, enter_from_unit_id, push_if, to_rupiah,
}

abbrev pub hold_ttl_minutes : ℕ
hold_ttl_minutes = 15

-- `hold_expires_at < now()`, which is not true of NULL.
abbrev pub before : Option ℕ → ℕ → Bool
before none now = false
before (some t) now = ltb t now

-- The WHERE of the sweep over all tenants.
unfoldable pub is_lapsed : ℕ → Booking → Bool
is_lapsed now b = is_pending b.status && before b.hold_expires_at now

abbrev pub set_status : BookingStatus → Booking → Booking
set_status status b = record b { status = status }

unfoldable pub expire_lapsed_holds : ℕ → ℕ → ℕ → Tx (Unit {0})
unfolding is_lapsed
expire_lapsed_holds tenant now unit = modify λ db. record db {
  bookings =
      update_where (λ b. b.unit_id == unit && b.tenant_id == tenant && is_lapsed now b)
        (set_status expired) db.bookings;
}

-- The cron: the number of holds it swept.
unfoldable pub sweep_expired_holds : ℕ → Tx ℕ
unfolding is_lapsed
sweep_expired_holds now = do
  swept ← query (λ db. length (select (is_lapsed now) db.bookings))
  modify
      λ db. record db { bookings = update_where (is_lapsed now) (set_status expired) db.bookings }
  pure swept

-- `fetchMaxGuests`
abbrev cap_of : ℕ → Option UnitRow → Option ℕ
cap_of tenant none = none
cap_of tenant (some u) = if u.tenant_id == tenant then some u.max_guests else none

unfoldable pub fetch_max_guests : ℕ → ℕ → Db → Option ℕ
fetch_max_guests tenant unit db = cap_of tenant (unit_by_id db.units unit)

pub record CreateBookingRequest : Type 0 where
  pub unit_id : ℕ
  pub check_in : ℕ
  pub check_out : ℕ
  pub guest_name : String
  pub guest_phone : String
  pub guest_email : Option String
  pub guest_count : ℕ

pub record CreateBookingResponse : Type 0 where
  pub booking_id : ℕ
  pub status : BookingStatus
  pub hold_expires_at : ℕ
  pub total_price_idr : ℕ
  pub nights : ℤ

-- The row that `insertHold` writes.
abbrev pub hold_row : ℕ → ℕ → ℕ → CreateBookingRequest → ℕ → Booking
hold_row tenant now id req price = record {
  id = id;
  tenant_id = tenant;
  unit_id = req.unit_id;
  source = direct;
  status = pending_payment;
  check_in = req.check_in;
  check_out = req.check_out;
  guest_name = some req.guest_name;
  guest_phone = some req.guest_phone;
  guest_email = req.guest_email;
  guest_count = some req.guest_count;
  total_price_idr = some price;
  external_uid = none;
  channel_connection_id = none;
  hold_expires_at = some (now + hold_ttl_minutes * 60000);
}

only_live : RefusalReason → QuoteOutcome → Tx AvailabilityResponse
only_live archived_reason (QuoteOutcome.quoted r) = pure r
only_live archived_reason QuoteOutcome.archived = throw (dates_unavailable (archived_reason ∷ []))
only_live archived_reason QuoteOutcome.not_found = throw Error.not_found

unfoldable pub sweep_quote_or_throw : ℕ → ℕ → ℕ → ℕ → ℕ → RefusalReason → Tx AvailabilityResponse
unfolding only_live
sweep_quote_or_throw tenant now unit check_in check_out archived_reason = do
  expire_lapsed_holds tenant now unit
  outcome ← quote tenant unit check_in check_out
  only_live archived_reason outcome

-- `createBookingRequestSchema` on the dates and the party.
unfoldable pub valid_request : CreateBookingRequest → Bool
valid_request req =
    valid_window req.check_in req.check_out && leb 1 req.guest_count && leb req.guest_count 64

abbrev pub contains : ℕ → List ℕ → Bool
contains x xs = any (λ y. y == x) xs

-- Step (4) of the transaction: the insert, and the framing of the row that it returns.
unfoldable pub insert_hold :
    ℕ → ℕ → ℕ → CreateBookingRequest → AvailabilityResponse → Tx CreateBookingResponse
insert_hold tenant now id req q = do
  created ← insert_booking (hold_row tenant now id req q.total_price_idr)
  expires ← or_throw created.hold_expires_at internal_server_error
  price ← or_throw created.total_price_idr internal_server_error
  total ← lift (to_rupiah (pos price))
  pure (record {
    booking_id = created.id;
    status = created.status;
    hold_expires_at = expires;
    total_price_idr = total;
    nights = q.nights;
  })

-- Every refusal of the re-check, in one list.
abbrev pub refusals : AvailabilityResponse → ℕ → ℕ → List RefusalReason
refusals q cap guest_count = q.reasons ++ push_if (ltb cap guest_count) max_guests

-- The transaction: sweep, re-check, insert.
unfoldable pub place_hold : ℕ → ℕ → ℕ → CreateBookingRequest → Tx CreateBookingResponse
place_hold tenant now id req = do
  q ← sweep_quote_or_throw tenant now req.unit_id req.check_in req.check_out unavailable
  found ← query (fetch_max_guests tenant req.unit_id)
  cap ← or_throw found Error.not_found
  guard (not (non_empty (refusals q cap req.guest_count)))
      (dates_unavailable (refusals q cap req.guest_count))
  insert_hold tenant now id req q

-- `requires` is `requiresCredentials` of the bound payment gateway.
unfoldable pub create_public_booking :
    Bool → ℕ → ℕ → CreateBookingRequest → Tx CreateBookingResponse
create_public_booking requires now id req = do
  guard (valid_request req) bad_request
  tenant ← enter_from_unit_id req.unit_id
  configured ← query (λ db. contains tenant db.credentials)
  guard (not requires || configured) payments_not_configured
  place_hold tenant now id req
