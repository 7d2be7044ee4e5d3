-- ===== src/Payments/Confirmation/Emits.antt =====
-- What a visit of the confirmation page notifies (apps/api/src/payments/confirmation.service.ts).
use sambung.Common.{ℕ, refl, inl, inr, Option, none, some, List, [], Bool-cases}
use sambung.Db.Tx.{Result, ok, err}
use sambung.Db.Schema.{is_pending, Booking, Db}
use sambung.Db.Overlap.{UniqueIds}
use sambung.Booking.{expire_lapsed_holds}
use sambung.Booking.Invariant.{expire_lapsed_holds-Keeps}
use sambung.Payments.{Gateway}
use sambung.Payments.Decided.{Decided, Decided-BookingWrites}
use sambung.Payments.Pay.{find_pending_payment_order_id}
use sambung.Payments.Webhook.{reconcile}
use sambung.Payments.Webhook.Emits.{Notifies, Good, reconcile-Emits}
use sambung.Payments.Confirmation.{
  settle, reconcile_order, reconcile_pending, reconcile_on_read, then_sweep, visit_as,
  get_confirmation,
}
use sambung.Payments.Confirmation.Keeps.{settle-keeps}

module _ {Body : Type 0} (gateway : Gateway Body) (now : ℕ) where
  settled-Notifies :
      (db : Db) (r : Result (List ℕ × Db))
      → Good db r
      → Notifies db (settle [] db r).0 (settle [] db r).1
  settled-Notifies db (ok (ns, after)) h id = h id
  settled-Notifies db (err e) h id = inl refl

  reconcile_order-Notifies :
      (o : Option ℕ) (db : Db)
      → UniqueIds db.bookings
      → Notifies db (reconcile_order gateway now o db).0 (reconcile_order gateway now o db).1
  unfolding reconcile_order
  reconcile_order-Notifies none db u = λ id. inl refl
  reconcile_order-Notifies (some order) db u =
      settled-Notifies db (reconcile gateway order db) ((reconcile-Emits gateway order).at db u)

  -- The sweep takes nothing back.
  then_sweep-Notifies :
      (tenant unit : ℕ) (db : Db) (v : List ℕ × Db)
      → Notifies db v.0 v.1
      → Notifies db
          (then_sweep gateway now tenant unit v).0
          (then_sweep gateway now tenant unit v).1
  unfolding then_sweep
  then_sweep-Notifies tenant unit db (ns, mid) h id = elim (h id) [
    | inl z ↦ inl z
    | inr (one, before, after) ↦ inr (
      one,
      before,
      settle-keeps (Decided id) tt mid (expire_lapsed_holds tenant now unit mid) after
          ((expire_lapsed_holds-Keeps (Decided-BookingWrites id) tenant now unit).at mid after),
    )
  ]

  reconcile_pending-Notifies :
      (tenant booking : ℕ) (o : Option Booking) (db : Db)
      → UniqueIds db.bookings
      → Notifies db
          (reconcile_pending gateway now tenant booking o db).0
          (reconcile_pending gateway now tenant booking o db).1
  unfolding reconcile_pending
  reconcile_pending-Notifies tenant booking none db u = λ id. inl refl
  reconcile_pending-Notifies tenant booking (some b) db u =
      elim (Bool-cases (is_pending b.status)) [
        | inl y ↦ rw y (
            then_sweep-Notifies tenant b.unit_id db
              (reconcile_order gateway now (find_pending_payment_order_id booking db) db)
              (reconcile_order-Notifies (find_pending_payment_order_id booking db) db u))
        | inr n ↦ rw n (λ id. inl refl)
      ]

  visit_as-Notifies :
      (booking : ℕ) (r : Result (ℕ × Db)) (db : Db)
      → UniqueIds db.bookings
      → Notifies db
          (visit_as gateway now booking r db).notified
          (visit_as gateway now booking r db).after
  unfolding visit_as reconcile_on_read
  visit_as-Notifies booking (err e) db u = λ id. inl refl
  visit_as-Notifies booking (ok (tenant, d)) db u = reconcile_pending-Notifies tenant booking _ db u

  pub get_confirmation-Notifies :
      (booking : ℕ) (db : Db)
      → UniqueIds db.bookings
      → Notifies db
          (get_confirmation gateway now booking db).notified
          (get_confirmation gateway now booking db).after
  unfolding get_confirmation
  get_confirmation-Notifies booking db u = visit_as-Notifies booking _ db u
