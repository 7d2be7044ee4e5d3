-- ===== src/Payments/Confirmation/Keeps.antt =====
-- What a visit of the confirmation page keeps (apps/api/src/payments/confirmation.service.ts).
use sambung.Common.{ℕ, inl, inr, Option, none, some, List, [], Bool-cases}
use sambung.Db.Tx.{committed, Result, ok, err}
use sambung.Db.Schema.{is_pending, Booking, Db}
use sambung.Booking.Invariant.{expire_lapsed_holds-Keeps}
use sambung.Payments.{Gateway}
use sambung.Payments.Webhook.{reconcile}
use sambung.Payments.Webhook.Keeps.{reconcile-Keeps}
use sambung.Payments.Confirmation.{
  settle, reconcile_order, reconcile_pending, reconcile_on_read, then_sweep, visit_as,
  get_confirmation,
}
use sambung.Payments.Pay.{find_pending_payment_order_id}
use sambung.Payments.Keeps.{Writes}
use sambung.Booking.{expire_lapsed_holds}

pub settle-keeps :
    (P : Db → Type 0) {A : Type 0} (default : A) (db : Db) (r : Result (A × Db))
    → P db
    → P (committed db r)
    → P (settle default db r).1
settle-keeps P default db (ok (a, after)) h k = k
settle-keeps P default db (err e) h k = h

module _ {P : Db → Type 0} (w : Writes P) where
  module _ {Body : Type 0} (gateway : Gateway Body) (now : ℕ) where
    reconcile_order-keeps : (o : Option ℕ) (db : Db) → P db → P (reconcile_order gateway now o db).1
    unfolding reconcile_order
    reconcile_order-keeps none db h = h
    reconcile_order-keeps (some order) db h =
        settle-keeps P [] db (reconcile gateway order db) h
          ((reconcile-Keeps w.webhook gateway order).at db h)

    then_sweep-keeps :
        (tenant unit : ℕ) (v : List ℕ × Db) → P v.1 → P (then_sweep gateway now tenant unit v).1
    unfolding then_sweep
    then_sweep-keeps tenant unit (ns, db) h =
        settle-keeps P tt db (expire_lapsed_holds tenant now unit db) h
          ((expire_lapsed_holds-Keeps w.bookings tenant now unit).at db h)

    reconcile_pending-keeps :
        (tenant booking : ℕ) (o : Option Booking) (db : Db)
        → P db
        → P (reconcile_pending gateway now tenant booking o db).1
    unfolding reconcile_pending
    reconcile_pending-keeps tenant booking none db h = h
    reconcile_pending-keeps tenant booking (some b) db h = elim (Bool-cases (is_pending b.status)) [
      | inl y ↦ rw y (
          then_sweep-keeps tenant b.unit_id
            (reconcile_order gateway now (find_pending_payment_order_id booking db) db)
            (reconcile_order-keeps _ db h))
      | inr n ↦ rw n h
    ]

    visit_as-keeps :
        (booking : ℕ) (r : Result (ℕ × Db)) (db : Db)
        → P db
        → P (visit_as gateway now booking r db).after
    unfolding visit_as reconcile_on_read
    visit_as-keeps booking (err e) db h = h
    visit_as-keeps booking (ok (tenant, d)) db h = reconcile_pending-keeps tenant booking _ db h

    pub get_confirmation-keeps :
        (booking : ℕ) (db : Db) → P db → P (get_confirmation gateway now booking db).after
    unfolding get_confirmation
    get_confirmation-keeps booking db h = visit_as-keeps booking _ db h
