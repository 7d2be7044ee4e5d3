-- ===== src/Payments/Confirmation.antt =====
-- `ConfirmationService` (apps/api/src/payments/confirmation.service.ts): the guest's confirmation page.
-- It runs several transactions, so a visit is the reply, the tables that it leaves and the bookings
-- that it notified. Names and the wa.me link are left out.
pub mod Keeps
pub mod Emits
pub mod Reading
use sambung.Common.Int.{pos}
use sambung.Common.{
  ℕ, ◌+◌, ◌-◌, ◌&&◌, Option, none, some, List, [], ◌∷◌, ltb, ◌==◌, if◌then◌else◌, find,
}
use sambung.Db.Tx.{reply, Result, ok, err, Error, Tx, ◌>>=◌, ◌>>◌, pure, query, or_throw, lift}
use sambung.Db.Schema.{BookingStatus, is_pending, is_paid, Booking, UnitRow, Property, Payment, Db}
use sambung.Availability.{to_rupiah}
use sambung.Booking.{expire_lapsed_holds}
use sambung.Payments.{Gateway}
use sambung.Payments.Webhook.{reconcile}
use sambung.Payments.Pay.{own_booking, enter_from_booking_id, find_pending_payment_order_id}

pub record ConfirmationView : Type 0 where
  pub status : BookingStatus
  pub unit_id : ℕ
  pub check_in : ℕ
  pub check_out : ℕ
  pub total_price_idr : Option ℕ
  pub amount_paid_idr : ℕ

pub record BookingConfirmationResponse : Type 0 where
  pub status : BookingStatus
  pub check_in : ℕ
  pub check_out : ℕ
  pub total_price_idr : Option ℕ
  pub amount_paid_idr : ℕ
  pub balance_idr : Option ℕ

-- `coalesce(sum(amount_idr), 0)` of the booking's paid payments
unfoldable pub amount_paid : ℕ → List Payment → ℕ
amount_paid booking [] = 0
amount_paid booking (p ∷ ps) =
    (if p.booking_id == booking && is_paid p.status then p.amount_idr else 0)
    + amount_paid booking ps

view_property : Db → Booking → Option Property → Option ConfirmationView
unfolding amount_paid
view_property db b none = none
view_property db b (some p) = some (record {
  status = b.status;
  unit_id = b.unit_id;
  check_in = b.check_in;
  check_out = b.check_out;
  total_price_idr = b.total_price_idr;
  amount_paid_idr = amount_paid b.id db.payments;
})

view_unit : ℕ → Db → Booking → Option UnitRow → Option ConfirmationView
unfolding view_property
view_unit tenant db b none = none
view_unit tenant db b (some u) =
    view_property db b (find (λ p. p.id == u.property_id && p.tenant_id == tenant) db.properties)

view_booking : ℕ → Db → Option Booking → Option ConfirmationView
unfolding view_unit
view_booking tenant db none = none
view_booking tenant db (some b) =
    view_unit tenant db b (find (λ u. u.id == b.unit_id && u.tenant_id == tenant) db.units)

unfoldable pub read_confirmation_view : ℕ → ℕ → Db → Option ConfirmationView
unfolding view_booking
read_confirmation_view tenant id db = view_booking tenant db (own_booking tenant id db)

-- `total > paid ? total - paid : 0`
abbrev pub balance : ℕ → ℕ → ℕ
balance total paid = if ltb paid total then total - paid else 0

abbrev as_some : Result ℕ → Result (Option ℕ)
as_some (ok n) = ok (some n)
as_some (err e) = err e

abbrev rupiah_or_null : Option ℕ → Result (Option ℕ)
rupiah_or_null none = ok none
rupiah_or_null (some n) = as_some (to_rupiah (pos n))

abbrev balance_or_null : Option ℕ → ℕ → Result (Option ℕ)
balance_or_null none paid = ok none
balance_or_null (some total) paid = as_some (to_rupiah (pos (balance total paid)))

unfoldable pub frame : ConfirmationView → Tx BookingConfirmationResponse
frame v = do
  total ← lift (rupiah_or_null v.total_price_idr)
  paid ← lift (to_rupiah (pos v.amount_paid_idr))
  owed ← lift (balance_or_null v.total_price_idr v.amount_paid_idr)
  pure (record {
    status = v.status;
    check_in = v.check_in;
    check_out = v.check_out;
    total_price_idr = total;
    amount_paid_idr = paid;
    balance_idr = owed;
  })

abbrev pub settle : {A : Type 0} → A → Db → Result (A × Db) → A × Db
settle default db (ok r) = r
settle default db (err e) = (default, db)

-- A step whose failure is logged and no more.
abbrev pub best_effort : {A : Type 0} → A → Tx A → Db → A × Db
best_effort default m db = settle default db (m db)

pub record Visit : Type 0 where
  pub reply : Result BookingConfirmationResponse
  pub notified : List ℕ
  pub after : Db

module _ {Body : Type 0} (gateway : Gateway Body) (now : ℕ) where
  reconcile_order : Option ℕ → Db → List ℕ × Db
  reconcile_order none db = ([], db)
  reconcile_order (some order) db = best_effort [] (reconcile gateway order) db

  then_sweep : ℕ → ℕ → List ℕ × Db → List ℕ × Db
  then_sweep tenant unit (notified, db) =
      (notified, (best_effort tt (expire_lapsed_holds tenant now unit) db).1)

  reconcile_pending : ℕ → ℕ → Option Booking → Db → List ℕ × Db
  unfolding reconcile_order then_sweep
  reconcile_pending tenant booking none db = ([], db)
  reconcile_pending tenant booking (some b) db =
      if is_pending b.status
      then then_sweep tenant b.unit_id
          (reconcile_order (find_pending_payment_order_id booking db) db)
      else ([], db)

  -- Reconcile, and only then sweep.
  unfoldable pub reconcile_on_read : ℕ → ℕ → Db → List ℕ × Db
  unfolding reconcile_pending
  reconcile_on_read tenant booking db =
      reconcile_pending tenant booking (own_booking tenant booking db) db

  unfoldable pub render : ℕ → ℕ → Tx BookingConfirmationResponse
  render tenant booking = do
    found ← query (read_confirmation_view tenant booking)
    view ← or_throw found Error.not_found
    frame view

  visited : ℕ → ℕ → List ℕ × Db → Visit
  visited tenant booking (notified, after) = record {
    reply = reply after (render tenant booking after);
    notified = notified;
    after = after;
  }

  visit_as : ℕ → Result (ℕ × Db) → Db → Visit
  unfolding reconcile_on_read visited
  visit_as booking (err e) db = record { reply = err e; notified = []; after = db }
  visit_as booking (ok (tenant, db')) db =
      visited tenant booking (reconcile_on_read tenant booking db)

  unfoldable pub get_confirmation : ℕ → Db → Visit
  unfolding visit_as
  get_confirmation booking db = visit_as booking (enter_from_booking_id booking db) db
