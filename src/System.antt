-- ===== src/System.antt =====
-- The requests and cron ticks that write bookings and payments (apps/api/src/bookings and
-- apps/api/src/payments), one after another in any order: what one transaction commits is what the
-- next one finds.
pub mod Consistent
pub mod Notified
use sambung.Common.{ℕ, String, Bool, List, [], ◌++◌}
use sambung.Db.Tx.{committed, Result, ok, err}
use sambung.Db.Schema.{Db}
use sambung.Booking.{CreateBookingRequest, create_public_booking, sweep_expired_holds}
use sambung.OwnerBooking.{OwnerRequest, create_owner_booking, cancel}
use sambung.Payments.{Gateway}
use sambung.Payments.Webhook.{handle}
use sambung.Payments.Pay.{pay}
use sambung.Payments.Confirmation.{get_confirmation}

-- What a webhook delivery notified, if it committed.
abbrev pub notified_by : Result (List ℕ × Db) → List ℕ
notified_by (ok (notified, after)) = notified
notified_by (err e) = []

module _ (Body : Type 0) (is_url : String → Bool) where
  -- One request or tick: the bookings that it notified as confirmed, and the tables after it. What the
  -- payment gateway answers, a pulled status too, is each step's own.
  pub data Step (db : Db) : List ℕ → Db → Type 0 where
    checkout :
        (gateway : Gateway Body) (now id : ℕ) (req : CreateBookingRequest)
        → Step db []
            (committed db (create_public_booking gateway.requires_credentials now id req db))
    owner_booking :
        (tenant now id : ℕ) (req : OwnerRequest)
        → Step db [] (committed db (create_owner_booking tenant now id req db))
    cancellation : (tenant id : ℕ) → Step db [] (committed db (cancel tenant id db))
    tick : (now : ℕ) → Step db [] (committed db (sweep_expired_holds now db))
    payment_started :
        (gateway : Gateway Body) (now id booking : ℕ)
        → Step db [] (committed db (pay gateway is_url now id booking db))
    delivery :
        (gateway : Gateway Body) (provider : String) (body : Body)
        → Step db
            (notified_by (handle gateway provider body db))
            (committed db (handle gateway provider body db))
    page_visit :
        (gateway : Gateway Body) (now booking : ℕ)
        → Step db
            (get_confirmation gateway now booking db).notified
            (get_confirmation gateway now booking db).after

  pub data Run (db : Db) : List ℕ → Db → Type 0 where
    start : Run db [] db
    next :
        {notified more : List ℕ} {mid after : Db}
        → Run db notified mid
        → Step mid more after
        → Run db (more ++ notified) after
