-- ===== src/Booking/Invariant.antt =====
-- What the writes of apps/api/src/bookings keep: whatever an insert keeps and a status that frees the
-- nights; the consistency of the booking table is of that kind.
use sambung.Common.{ℕ, ◌≡◌, refl, Bool, false, if◌then◌else◌, inl, inr, Bool-cases}
use sambung.Db.Schema.{BookingStatus, expired, occupying, Booking, Db}
use sambung.Db.Tx.{RefusalReason, Result, ok, err, committed}
use sambung.Db.Bookings.{insert_booking, update_where}
use sambung.Db.Overlap.{
  Narrows, Narrows-refl, IsConsistent, update-IsConsistent, insert_booking-Inserted,
  Inserted-IsConsistent,
}
use sambung.Db.Keeps.{Keeps, Keeps-read, keeps_rules}
use sambung.Availability.{AvailabilityResponse, QuoteOutcome, quote, enter_from_unit_id}
use sambung.Booking.{
  set_status, expire_lapsed_holds, sweep_expired_holds, only_live, sweep_quote_or_throw,
  CreateBookingRequest, insert_hold, place_hold, create_public_booking,
}

-- A status that does not occupy narrows any row.
pub set_status-Narrows :
    (p : Booking → Bool) (status : BookingStatus)
    → occupying status ≡ false
    → (b : Booking) → Narrows b (if p b then set_status status b else b)
set_status-Narrows p status h b = elim (Bool-cases (p b)) [
  | inl e ↦ rw e (record {
    id_same = refl;
    unit_same = refl;
    check_in_same = refl;
    check_out_same = refl;
    tenant_same = refl;
    status_narrows = λ k. cc;
  })
  | inr e ↦ rw e (Narrows-refl b)
]

insert_booking-Keeps : (b : Booking) → Keeps IsConsistent (insert_booking b)
insert_booking-Keeps b = record { at = λ db h. inserted db (insert_booking b db) refl h }
  where
    inserted :
        (db : Db) (r : Result (Booking × Db))
        → insert_booking b db ≡ r
        → IsConsistent db
        → IsConsistent (committed db r)
    inserted db (ok (x, after)) e h = Inserted-IsConsistent (insert_booking-Inserted b db e) h
    inserted db (err x) e h = h

-- Kept by the two kinds of writes.
pub record BookingWrites (P : Db → Type 0) : Type 0 where
  pub inserts : (b : Booking) → Keeps P (insert_booking b)
  pub frees :
      (q : Booking → Bool) (status : BookingStatus)
      → occupying status ≡ false
      → (db : Db) → P db
      → P (record db { bookings = update_where q (set_status status) db.bookings })

pub IsConsistent-BookingWrites : BookingWrites IsConsistent
IsConsistent-BookingWrites = record {
  inserts = insert_booking-Keeps;
  frees = λ q status h db k. update-IsConsistent _ (set_status-Narrows q status h) db k;
}

pub quote-Keeps : {P : Db → Type 0} (tenant unit from to : ℕ) → Keeps P (quote tenant unit from to)
unfolding quote
quote-Keeps tenant unit from to = Keeps-read _

pub enter_from_unit_id-Keeps : {P : Db → Type 0} (unit : ℕ) → Keeps P (enter_from_unit_id unit)
unfolding enter_from_unit_id
enter_from_unit_id-Keeps unit = search keeps_rules

only_live-Keeps :
    {P : Db → Type 0} (reason : RefusalReason) (o : QuoteOutcome) → Keeps P (only_live reason o)
unfolding only_live
only_live-Keeps reason (QuoteOutcome.quoted r) = search keeps_rules
only_live-Keeps reason QuoteOutcome.archived = search keeps_rules
only_live-Keeps reason QuoteOutcome.not_found = search keeps_rules

module _ {P : Db → Type 0} (w : BookingWrites P) where
  pub expire_lapsed_holds-Keeps :
      (tenant now unit : ℕ) → Keeps P (expire_lapsed_holds tenant now unit)
  unfolding expire_lapsed_holds
  expire_lapsed_holds-Keeps tenant now unit = record {
    at = λ db h. w.frees _ expired (unfold occupying in refl) db h;
  }

  pub sweep_expired_holds-Keeps : (now : ℕ) → Keeps P (sweep_expired_holds now)
  unfolding sweep_expired_holds
  sweep_expired_holds-Keeps now = record {
    at = λ db h. w.frees _ expired (unfold occupying in refl) db h;
  }

  pub sweep_quote_or_throw-Keeps :
      (tenant now unit from to : ℕ) (reason : RefusalReason)
      → Keeps P (sweep_quote_or_throw tenant now unit from to reason)
  unfolding sweep_quote_or_throw
  sweep_quote_or_throw-Keeps tenant now unit from to reason =
      search (keeps_rules, expire_lapsed_holds-Keeps, quote-Keeps, only_live-Keeps)

  insert_hold-Keeps :
      (tenant now id : ℕ) (req : CreateBookingRequest) (q : AvailabilityResponse)
      → Keeps P (insert_hold tenant now id req q)
  unfolding insert_hold
  insert_hold-Keeps tenant now id req q = search (keeps_rules, w.inserts) depth 12

  place_hold-Keeps :
      (tenant now id : ℕ) (req : CreateBookingRequest) → Keeps P (place_hold tenant now id req)
  unfolding place_hold
  place_hold-Keeps tenant now id req =
      search (keeps_rules, sweep_quote_or_throw-Keeps, insert_hold-Keeps) depth 12

  pub create_public_booking-Keeps :
      (requires : Bool) (now id : ℕ) (req : CreateBookingRequest)
      → Keeps P (create_public_booking requires now id req)
  unfolding create_public_booking
  create_public_booking-Keeps requires now id req =
      search (keeps_rules, enter_from_unit_id-Keeps, place_hold-Keeps) depth 12
