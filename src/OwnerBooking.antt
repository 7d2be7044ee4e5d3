-- ===== src/OwnerBooking.antt =====
-- apps/api/src/bookings: the owner's half of `BookingsService` and `BookingsRepository`, a Block or a
-- walk-in and the cancel.
pub mod Invariant
pub mod Cancel
use sambung.Common.{
  [], ℕ, String, Bool, true, false, not, ◌&&◌, Option, none, some, ◌∷◌, leb, ◌==◌, if◌then◌else◌,
  find, any,
}
use sambung.Common.Int.{ℤ, pos}
use sambung.Stay.{valid_window}
use sambung.Db.Schema.{
  BookingStatus, confirmed, occupying, BookingSource, direct, manual_block, is_paid, Booking, Db,
}
use sambung.Db.Tx.{
  RefusalReason, overlap, archived, Error, bad_request, dates_unavailable, booking_not_cancellable,
  Tx, ◌>>=◌, ◌>>◌, pure, throw, query, modify, guard, lift,
}
use sambung.Db.Bookings.{insert_booking, update_where}
use sambung.Availability.{max_safe_integer, to_rupiah}
use sambung.Booking.{set_status, sweep_quote_or_throw}

-- The two bodies of `createOwnerBookingRequestSchema`.
pub record WalkIn : Type 0 where
  pub guest_name : String
  pub guest_phone : Option String
  pub guest_email : Option String
  pub guest_count : Option ℕ
  pub total_price_idr : Option ℕ

pub data OwnerBody : Type 0 where
  block : OwnerBody
  walk_in : WalkIn → OwnerBody

pub record OwnerRequest : Type 0 where
  pub unit_id : ℕ
  pub check_in : ℕ
  pub check_out : ℕ
  pub body : OwnerBody

-- The `base` of both inserts: confirmed, with no hold.
abbrev base_row : ℕ → ℕ → OwnerRequest → BookingSource → Booking
base_row tenant id req source = record {
  id = id;
  tenant_id = tenant;
  unit_id = req.unit_id;
  source = source;
  status = confirmed;
  check_in = req.check_in;
  check_out = req.check_out;
  guest_name = none;
  guest_phone = none;
  guest_email = none;
  guest_count = none;
  total_price_idr = none;
  external_uid = none;
  channel_connection_id = none;
  hold_expires_at = none;
}

abbrev or_default : Option ℕ → ℕ → ℕ
or_default none d = d
or_default (some n) d = n

abbrev pub owner_row : ℕ → ℕ → OwnerRequest → OwnerBody → ℕ → Booking
owner_row tenant id req block quoted = base_row tenant id req manual_block
owner_row tenant id req (walk_in w) quoted = record (base_row tenant id req direct) {
  guest_name = some w.guest_name;
  guest_phone = w.guest_phone;
  guest_email = w.guest_email;
  guest_count = w.guest_count;
  total_price_idr = some (or_default w.total_price_idr quoted);
}

abbrev pub is_overlap : RefusalReason → Bool
is_overlap overlap = true
is_overlap _ = false

pub record OwnerResponse : Type 0 where
  pub booking_id : ℕ
  pub status : BookingStatus
  pub source : BookingSource
  pub check_in : ℕ
  pub check_out : ℕ
  pub total_price_idr : Option ℕ
  pub nights : ℤ

abbrev within : ℕ → ℕ → Option ℕ → Bool
within lo hi none = true
within lo hi (some n) = leb lo n && leb n hi

abbrev valid_body : OwnerBody → Bool
valid_body block = true
valid_body (walk_in w) = within 1 64 w.guest_count && within 0 max_safe_integer w.total_price_idr

-- `created.totalPriceIdr === null ? null : toRupiah(…)`
abbrev rupiah_or_null : Option ℕ → Tx (Option ℕ)
rupiah_or_null none = pure none
rupiah_or_null (some n) = do total ← lift (to_rupiah (pos n)); pure (some total)

unfoldable pub create_owner_booking : ℕ → ℕ → ℕ → OwnerRequest → Tx OwnerResponse
create_owner_booking tenant now id req = do
  guard (valid_window req.check_in req.check_out && valid_body req.body) bad_request
  q ← sweep_quote_or_throw tenant now req.unit_id req.check_in req.check_out archived
  guard (not (any is_overlap q.reasons)) (dates_unavailable (overlap ∷ []))
  created ← insert_booking (owner_row tenant id req req.body q.total_price_idr)
  total ← rupiah_or_null created.total_price_idr
  pure (record {
    booking_id = created.id;
    status = created.status;
    source = created.source;
    check_in = created.check_in;
    check_out = created.check_out;
    total_price_idr = total;
    nights = q.nights;
  })

-- The WHERE of the guarded UPDATE.
unfoldable pub is_cancellable : ℕ → ℕ → Booking → Bool
is_cancellable tenant id b = b.id == id && b.tenant_id == tenant && occupying b.status

pub data CancelOutcome : Type 0 where
  cancelled not_found : CancelOutcome
  terminal : BookingStatus → CancelOutcome

abbrev pub existing_outcome : Option Booking → CancelOutcome
existing_outcome none = CancelOutcome.not_found
existing_outcome (some b) = terminal b.status

unfoldable pub cancel_by_id : ℕ → ℕ → Tx CancelOutcome
unfolding is_cancellable
cancel_by_id tenant id = do
  updated ← query (λ db. any (is_cancellable tenant id) db.bookings)
  modify λ db. record db {
    bookings =
        update_where (is_cancellable tenant id) (set_status BookingStatus.cancelled) db.bookings;
  }
  if updated
      then pure CancelOutcome.cancelled
      else query
          (λ db. existing_outcome (find (λ b. b.id == id && b.tenant_id == tenant) db.bookings))

unfoldable pub has_paid_payment : ℕ → Db → Bool
has_paid_payment booking db = any (λ p. p.booking_id == booking && is_paid p.status) db.payments

-- `"none"` and `"manual"`
pub data Refund : Type 0 where
  nothing manual : Refund

unfoldable pub frame_cancel : ℕ → CancelOutcome → Tx Refund
frame_cancel id CancelOutcome.not_found = throw Error.not_found
frame_cancel id (terminal status) = throw (booking_not_cancellable status)
frame_cancel id CancelOutcome.cancelled = do
  paid ← query (has_paid_payment id)
  pure (if paid then manual else nothing)

unfoldable pub cancel : ℕ → ℕ → Tx Refund
unfolding cancel_by_id frame_cancel
cancel tenant id = do outcome ← cancel_by_id tenant id; frame_cancel id outcome
