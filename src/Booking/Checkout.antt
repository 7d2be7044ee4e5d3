-- ===== src/Booking/Checkout.antt =====
-- The terms in which the decision of `createPublicBooking` is stated
-- (apps/api/src/bookings/bookings.service.ts), and lemmas on its guards.
use sambung.Common.{
  ℕ, ◌≡◌, refl, Bool, true, false, not, ◌&&◌, some, List, [], ◌∷◌, ◌++◌, ltb, ◌==◌, arith, any,
  non_empty,
}
use sambung.Common.Int.{ℤ, pos}
use sambung.Stay.{count_nights, quote_total_idr, meets_min_stay}
use sambung.Db.Schema.{BookingStatus, expired, Booking, UnitRow, Db}
use sambung.Db.Tx.{
  RefusalReason, overlap, min_stay, max_guests, dates_unavailable, Result, ok, err, Tx, guard, ◌>>◌,
}
use sambung.Db.Bookings.{update_where, unit_by_id}
use sambung.Db.Overlap.{IsConsistent}
use sambung.Availability.{UnitPricing, push_if, to_rupiah, fetch_unit_pricing, find_price_overrides}
use sambung.Booking.{
  is_lapsed, set_status, valid_request, CreateBookingRequest, CreateBookingResponse,
}

-- The tables after the opportunistic sweep.
abbrev pub swept : ℕ → ℕ → ℕ → Db → Db
swept tenant now unit db = record db {
  bookings =
      update_where (λ b. b.unit_id == unit && b.tenant_id == tenant && is_lapsed now b)
        (set_status expired) db.bookings;
}

pub id-update_where :
    (id : ℕ) (p : Booking → Bool) (status : BookingStatus) (bs : List Booking)
    → any (λ c. c.id == id) (update_where p (set_status status) bs) ≡ any (λ c. c.id == id) bs
id-update_where id p status [] = refl
id-update_where id p status (b ∷ bs) = ground (arith, id-update_where id p status bs)

-- What the checkout is given: a priced unit that is not archived, a total in the range of a rupiah,
-- and a new uuid.
pub record Checkout (db : Db) (now id : ℕ) (req : CreateBookingRequest) (u : UnitRow)
    (p : UnitPricing) (price : ℕ) : Type 0 where
  pub consistent : IsConsistent db
  pub valid : valid_request req ≡ true
  pub unit : unit_by_id db.units req.unit_id ≡ some u
  pub priced : fetch_unit_pricing u.tenant_id req.unit_id db ≡ some p
  pub live : p.archived ≡ false
  pub total :
      to_rupiah (
        quote_total_idr p.base_price_idr req.check_in req.check_out
          (find_price_overrides u.tenant_id req.unit_id req.check_in req.check_out db))
      ≡ ok price
  pub fresh : any (λ c. c.id == id) db.bookings ≡ false

-- Why the stay is refused: the constraint's own verdict on the row, the minimum stay, the capacity.
abbrev pub reasons_for : Bool → CreateBookingRequest → UnitRow → UnitPricing → List RefusalReason
reasons_for taken req u p =
    (push_if taken overlap
      ++ push_if (not (meets_min_stay (count_nights req.check_in req.check_out) p.min_stay))
          min_stay)
    ++ push_if (ltb u.max_guests req.guest_count) max_guests

-- A refused stay changes nothing; any other gets what follows.
abbrev pub decide :
    List RefusalReason → Result (CreateBookingResponse × Db) → Result (CreateBookingResponse × Db)
decide [] r = r
decide (x ∷ xs) r = err (dates_unavailable (x ∷ xs))

pub to_rupiah-pos : (z : ℤ) {n : ℕ} → to_rupiah z ≡ ok n → to_rupiah (pos n) ≡ ok n
unfolding to_rupiah
to_rupiah-pos z e = ground arith

pub guarded :
    (rs : List RefusalReason) (m : Tx CreateBookingResponse) (db : Db)
    (r : Result (CreateBookingResponse × Db))
    → (rs ≡ [] → m db ≡ r)
    → (guard (not (non_empty rs)) (dates_unavailable rs) >> m) db ≡ decide rs r
guarded [] m db r h = h refl
guarded (x ∷ xs) m db r h = refl

pub not_taken :
    (taken : Bool) (req : CreateBookingRequest) (u : UnitRow) (p : UnitPricing)
    → reasons_for taken req u p ≡ []
    → taken ≡ false
not_taken true req u p e = cc
not_taken false req u p e = refl
