-- ===== src/System/Consistent.antt =====
-- Any run keeps the booking table consistent.
use sambung.Common.{ℕ, ◌≤◌, String, Bool, List}
use sambung.Db.Schema.{Db}
use sambung.Db.Overlap.{IsConsistent, occupants, NoOverlap-occupants}
use sambung.Booking.Invariant.{
  IsConsistent-BookingWrites, create_public_booking-Keeps, sweep_expired_holds-Keeps,
}
use sambung.OwnerBooking.Invariant.{create_owner_booking-Keeps, cancel-Keeps}
use sambung.Payments.Keeps.{Writes}
use sambung.Payments.Webhook.Keeps.{IsConsistent-Stable, handle-Keeps}
use sambung.Payments.Pay.Keeps.{pay-Keeps}
use sambung.Payments.Confirmation.Keeps.{get_confirmation-keeps}
use sambung.System.{
  Step, checkout, owner_booking, cancellation, tick, payment_started, delivery, page_visit, Run,
  start, next,
}

pub IsConsistent-Writes : Writes IsConsistent
IsConsistent-Writes = record {
  bookings = IsConsistent-BookingWrites;
  webhook = IsConsistent-Stable;
  pays = λ ps db h. record {
    unique_ids = h.unique_ids;
    no_overlap = h.no_overlap;
    own_units = h.own_units;
  };
}

module _ {Body : Type 0} (is_url : String → Bool) where
  pub Step-keeps :
      {P : Db → Type 0} (w : Writes P) {db after : Db} {notified : List ℕ}
      → Step Body is_url db notified after
      → P db
      → P after
  Step-keeps w {db} (checkout gateway now id req) h =
      (create_public_booking-Keeps w.bookings gateway.requires_credentials now id req).at db h
  Step-keeps w {db} (owner_booking tenant now id req) h =
      (create_owner_booking-Keeps w.bookings tenant now id req).at db h
  Step-keeps w {db} (cancellation tenant id) h = (cancel-Keeps w.bookings tenant id).at db h
  Step-keeps w {db} (tick now) h = (sweep_expired_holds-Keeps w.bookings now).at db h
  Step-keeps w {db} (payment_started gateway now id booking) h =
      (pay-Keeps w gateway is_url now id booking).at db h
  Step-keeps w {db} (delivery gateway provider body) h =
      (handle-Keeps w.webhook gateway provider body).at db h
  Step-keeps w {db} (page_visit gateway now booking) h =
      get_confirmation-keeps w gateway now booking db h

  pub Run-keeps :
      {P : Db → Type 0} (w : Writes P) {db after : Db} {notified : List ℕ}
      → Run Body is_url db notified after
      → P db
      → P after
  Run-keeps w start h = h
  Run-keeps w (next run step) h = Step-keeps w step (Run-keeps w run h)

  -- From consistent tables, after any sequence of checkouts, owner bookings, cancels, sweeps, pays,
  -- webhook deliveries and page visits, no night of any unit is held by more than one pending or
  -- confirmed booking.
  pub Run-occupants :
      {db after : Db} {notified : List ℕ} (unit d : ℕ)
      → IsConsistent db
      → Run Body is_url db notified after
      → occupants unit d after.bookings ≤ 1
  Run-occupants {after = after} unit d h run =
      NoOverlap-occupants unit d after.bookings (Run-keeps IsConsistent-Writes run h).no_overlap
