-- ===== src/OwnerBooking/Invariant.antt =====
-- What the owner's writes (apps/api/src/bookings) keep.
use sambung.Common.{ℕ, refl, Option, none, some}
use sambung.Db.Schema.{BookingStatus, occupying, Db}
use sambung.Db.Tx.{modify}
use sambung.Db.Bookings.{update_where}
use sambung.Db.Keeps.{Keeps, keeps_rules}
use sambung.Booking.{set_status}
use sambung.Booking.Invariant.{BookingWrites, sweep_quote_or_throw-Keeps}
use sambung.OwnerBooking.{
  OwnerRequest, rupiah_or_null, create_owner_booking, is_cancellable, CancelOutcome, terminal,
  frame_cancel, cancel,
}

rupiah_or_null-Keeps : {P : Db → Type 0} (o : Option ℕ) → Keeps P (rupiah_or_null o)
rupiah_or_null-Keeps none = search keeps_rules
rupiah_or_null-Keeps (some n) = search keeps_rules

frame_cancel-Keeps : {P : Db → Type 0} (id : ℕ) (o : CancelOutcome) → Keeps P (frame_cancel id o)
unfolding frame_cancel
frame_cancel-Keeps id CancelOutcome.not_found = search keeps_rules
frame_cancel-Keeps id (terminal s) = search keeps_rules
frame_cancel-Keeps id CancelOutcome.cancelled = search keeps_rules

module _ {P : Db → Type 0} (w : BookingWrites P) where
  pub create_owner_booking-Keeps :
      (tenant now id : ℕ) (req : OwnerRequest) → Keeps P (create_owner_booking tenant now id req)
  unfolding create_owner_booking
  create_owner_booking-Keeps tenant now id req =
      search (keeps_rules, w.inserts, sweep_quote_or_throw-Keeps w, rupiah_or_null-Keeps) depth 12

  free_dates-Keeps :
      (tenant id : ℕ)
      → Keeps P (
          modify λ db. record db {
            bookings =
                update_where
                  (is_cancellable tenant id)
                  (set_status BookingStatus.cancelled)
                  db.bookings;
          })
  free_dates-Keeps tenant id = record {
    at = λ db h. w.frees _ BookingStatus.cancelled (unfold occupying in refl) db h;
  }

  pub cancel-Keeps : (tenant id : ℕ) → Keeps P (cancel tenant id)
  unfolding cancel
  cancel-Keeps tenant id = search (keeps_rules, free_dates-Keeps, frame_cancel-Keeps) depth 10
