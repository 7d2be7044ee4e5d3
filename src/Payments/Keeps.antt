-- ===== src/Payments/Keeps.antt =====
-- The kinds of writes that bookings and payments see (apps/api/src/payments).
use sambung.Common.{List}
use sambung.Db.Schema.{Payment, Db}
use sambung.Booking.Invariant.{BookingWrites}
use sambung.Payments.Webhook.Keeps.{Stable}

-- Kept by every kind of write.
pub record Writes (P : Db → Type 0) : Type 0 where
  pub bookings : BookingWrites P
  pub webhook : Stable P
  pub pays : (ps : List Payment) (db : Db) → P db → P (record db { payments = ps })
