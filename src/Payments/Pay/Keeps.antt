-- ===== src/Payments/Pay/Keeps.antt =====
-- What a `pay` keeps (apps/api/src/payments/payments.service.ts).
use sambung.Common.{ℕ, String, Bool, Option, none, some, ◌∷◌}
use sambung.Db.Tx.{modify}
use sambung.Db.Schema.{Payment, Db}
use sambung.Db.Keeps.{Keeps, keeps_rules}
use sambung.Booking.Invariant.{expire_lapsed_holds-Keeps}
use sambung.Payments.{GatewayCredential, Gateway, for_gateway_or_throw}
use sambung.Payments.Pay.{
  PayContext, OpenSession, enter_from_booking_id, insert_payment_with_session, mint, reuse_or_mint,
  pay_locked, pay,
}
use sambung.Payments.Keeps.{Writes}

module _ {P : Db → Type 0} (w : Writes P) where
  enter_from_booking_id-Keeps : (id : ℕ) → Keeps P (enter_from_booking_id id)
  unfolding enter_from_booking_id
  enter_from_booking_id-Keeps id = search keeps_rules

  for_gateway_or_throw-Keeps :
      (requires : Bool) (tenant : ℕ) → Keeps P (for_gateway_or_throw requires tenant)
  unfolding for_gateway_or_throw
  for_gateway_or_throw-Keeps requires tenant = search keeps_rules depth 8

  stores-Keeps : (p : Payment) → Keeps P (modify λ db. record db { payments = p ∷ db.payments })
  stores-Keeps p = record { at = λ db h. w.pays (p ∷ db.payments) db h }

  insert_payment_with_session-Keeps : (p : Payment) → Keeps P (insert_payment_with_session p)
  unfolding insert_payment_with_session
  insert_payment_with_session-Keeps p = search (keeps_rules, stores-Keeps) depth 8

  module _ {Body : Type 0} (gateway : Gateway Body) (is_url : String → Bool)
      (now new_id booking : ℕ) where
    mint-Keeps :
        (c : GatewayCredential) (ctx : PayContext) (total : ℕ)
        → Keeps P (mint gateway is_url now new_id booking c ctx total)
    unfolding mint
    mint-Keeps c ctx total = search (keeps_rules, insert_payment_with_session-Keeps) depth 10

    reuse_or_mint-Keeps :
        (c : GatewayCredential) (ctx : PayContext) (total : ℕ) (o : Option OpenSession)
        → Keeps P (reuse_or_mint gateway is_url now new_id booking c ctx total o)
    unfolding reuse_or_mint
    reuse_or_mint-Keeps c ctx total none = mint-Keeps c ctx total
    reuse_or_mint-Keeps c ctx total (some s) = search keeps_rules

    pay_locked-Keeps :
        (tenant : ℕ) (c : GatewayCredential)
        → Keeps P (pay_locked gateway is_url now new_id booking tenant c)
    unfolding pay_locked
    pay_locked-Keeps tenant c =
        search (keeps_rules, expire_lapsed_holds-Keeps w.bookings, reuse_or_mint-Keeps) depth 20

    pub pay-Keeps : Keeps P (pay gateway is_url now new_id booking)
    unfolding pay
    pay-Keeps =
        search
          (keeps_rules, enter_from_booking_id-Keeps, for_gateway_or_throw-Keeps, pay_locked-Keeps)
          depth 8
