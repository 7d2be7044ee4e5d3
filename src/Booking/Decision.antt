-- ===== src/Booking/Decision.antt =====
-- The decision of `createPublicBooking` (apps/api/src/bookings/bookings.service.ts), in one equation.
use sambung.Common.{
  ℕ, ◌+◌, ◌*◌, ◌≡◌, refl, ◌∙◌, Bool, true, false, not, ◌&&◌, ◌||◌, some, List, ◌∷◌, ◌++◌, ltb, ◌==◌,
  if◌then◌else◌, arith, non_empty, ==_iff, any,
}
use sambung.Stay.{
  Range, count_nights, quote_total_idr, meets_min_stay, coalesce_ranges, PriceOverrideSpan,
  valid_window,
}
use sambung.Db.Schema.{pending_payment, expired, occupying, Booking, UnitRow, Db}
use sambung.Db.Tx.{
  overlap, min_stay, unavailable, payments_not_configured, ok, err, read, guard, ◌>>◌, violates,
  booking_no_overlap,
}
use sambung.Db.Bookings.{clashes, insert_booking, unit_fk}
use sambung.Db.Overlap.{not_imported, IsConsistent, insert_booking_takes, insert_booking-violates}
use sambung.Availability.{
  UnitPricing, AvailabilityResponse, QuoteOutcome, quote, quote_priced, respond, push_if, to_rupiah,
  fetch_unit_pricing, find_blocked_ranges, find_price_overrides, enter_from_unit_id,
}
use sambung.Availability.Agreement.{blocked-clashes}
use sambung.Booking.{
  is_lapsed, expire_lapsed_holds, sweep_quote_or_throw, fetch_max_guests, valid_request,
  CreateBookingRequest, CreateBookingResponse, hold_row, hold_ttl_minutes, insert_hold, place_hold,
  create_public_booking, contains,
}
use sambung.Booking.Invariant.{IsConsistent-BookingWrites, expire_lapsed_holds-Keeps}
use sambung.Booking.Checkout.{
  swept, id-update_where, Checkout, reasons_for, decide, to_rupiah-pos, guarded, not_taken,
}

module _ (db : Db) (now id : ℕ) (req : CreateBookingRequest) (u : UnitRow) (p : UnitPricing)
    (price : ℕ) (c : Checkout db now id req u p price) where
  abbrev after_sweep : Db
  after_sweep = swept u.tenant_id now req.unit_id db

  abbrev pub row : Booking
  row = hold_row u.tenant_id now id req price

  swept-IsConsistent : IsConsistent after_sweep
  unfolding expire_lapsed_holds
  swept-IsConsistent =
      (expire_lapsed_holds-Keeps IsConsistent-BookingWrites u.tenant_id now req.unit_id).at db
        c.consistent

  row-unit_fk : unit_fk db.units row ≡ true
  unfolding unit_fk
  row-unit_fk = rw c.unit (ground arith)

  unfoldable pub quoted : AvailabilityResponse
  quoted = record {
    available =
        not (clashes row after_sweep.bookings)
        && meets_min_stay (count_nights req.check_in req.check_out) p.min_stay;
    nights = count_nights req.check_in req.check_out;
    total_price_idr = price;
    min_stay = p.min_stay;
    reasons =
        push_if (clashes row after_sweep.bookings) overlap
        ++ push_if (not (meets_min_stay (count_nights req.check_in req.check_out) p.min_stay))
            min_stay;
    blocked_ranges =
        coalesce_ranges
          (find_blocked_ranges u.tenant_id req.unit_id req.check_in req.check_out after_sweep);
  }

  priced-swept : fetch_unit_pricing u.tenant_id req.unit_id after_sweep ≡ some p
  unfolding fetch_unit_pricing
  priced-swept = c.priced

  abbrev overrides : List PriceOverrideSpan
  overrides = find_price_overrides u.tenant_id req.unit_id req.check_in req.check_out after_sweep

  abbrev blocked : List Range
  blocked =
      coalesce_ranges
        (find_blocked_ranges u.tenant_id req.unit_id req.check_in req.check_out after_sweep)

  total-swept :
      to_rupiah (quote_total_idr p.base_price_idr req.check_in req.check_out overrides) ≡ ok price
  unfolding find_price_overrides
  total-swept = c.total

  taken-swept : non_empty blocked ≡ clashes row after_sweep.bookings
  taken-swept =
      blocked-clashes after_sweep row swept-IsConsistent.own_units row-unit_fk
        (unfold occupying in refl)

  respond-eq : respond p blocked overrides req.check_in req.check_out ≡ ok quoted
  unfolding respond quoted
  respond-eq = rw total-swept (rw taken-swept)

  quote-eq :
      quote u.tenant_id req.unit_id req.check_in req.check_out after_sweep
      ≡ ok (QuoteOutcome.quoted quoted, after_sweep)
  unfolding quote
  quote-eq = rw priced-swept (priced_live p c.live respond-eq)
    where
      priced_live :
          (p : UnitPricing) {r : AvailabilityResponse}
          → p.archived ≡ false
          → respond p blocked overrides req.check_in req.check_out ≡ ok r
          → read
              (λ db. quote_priced u.tenant_id req.unit_id req.check_in req.check_out db (some p))
              after_sweep
            ≡ ok (QuoteOutcome.quoted r, after_sweep)
      priced_live p live e = ground arith

  pub sweep_quote-eq :
      sweep_quote_or_throw u.tenant_id now req.unit_id req.check_in req.check_out unavailable db
      ≡ ok (quoted, after_sweep)
  unfolding sweep_quote_or_throw expire_lapsed_holds
  sweep_quote-eq = rw quote-eq

  pub valid_parts : (ltb req.check_in req.check_out ≡ true) × (ltb 0 req.guest_count ≡ true)
  unfolding valid_request valid_window
  valid_parts = (ground (arith, c.valid), ground (arith, c.valid))

  fresh-swept : any (λ c. c.id == id) after_sweep.bookings ≡ false
  fresh-swept =
      id-update_where id
        (λ b. b.unit_id == req.unit_id && b.tenant_id == u.tenant_id && is_lapsed now b) expired
        db.bookings
      ∙ c.fresh

  -- The constraint is the second guard of the same nights.
  pub insert-taken :
      clashes row after_sweep.bookings ≡ true
      → insert_booking row after_sweep ≡ err (violates booking_no_overlap)
  insert-taken =
      insert_booking-violates row after_sweep valid_parts.0 valid_parts.1 fresh-swept
        (not_imported row after_sweep.bookings refl)

  pub insert-eq :
      clashes row after_sweep.bookings ≡ false
      → insert_booking row after_sweep
        ≡ ok (row, record after_sweep { bookings = row ∷ after_sweep.bookings })
  insert-eq free =
      insert_booking_takes row after_sweep valid_parts.0 valid_parts.1 fresh-swept
        (not_imported row after_sweep.bookings refl) free row-unit_fk refl

  abbrev pub response : CreateBookingResponse
  response = record {
    booking_id = id;
    status = pending_payment;
    hold_expires_at = now + hold_ttl_minutes * 60000;
    total_price_idr = price;
    nights = count_nights req.check_in req.check_out;
  }

  abbrev pub placed : Db
  placed = record after_sweep { bookings = row ∷ after_sweep.bookings }

  insert_hold-eq :
      clashes row after_sweep.bookings ≡ false
      → insert_hold u.tenant_id now id req quoted after_sweep ≡ ok (response, placed)
  unfolding insert_hold quoted
  insert_hold-eq free = rw (insert-eq free) (rw (to_rupiah-pos _ c.total))

  place_hold-eq :
      place_hold u.tenant_id now id req db
      ≡ decide (reasons_for (clashes row after_sweep.bookings) req u p) (ok (response, placed))
  unfolding place_hold fetch_max_guests
  place_hold-eq =
      rw (sweep_quote-eq, c.unit)
        (rw ((==_iff u.tenant_id u.tenant_id).1 refl) (
          unfold quoted in
          guarded (reasons_for (clashes row after_sweep.bookings) req u p)
            (insert_hold u.tenant_id now id req quoted) after_sweep (ok (response, placed))
            λ e. insert_hold-eq (not_taken (clashes row after_sweep.bookings) req u p e)))

  -- From consistent tables, a priced and live unit, a total in the range of a rupiah and a new id: a
  -- valid checkout is turned away when the tenant has no payment credential and the gateway wants
  -- one, or else refused with exactly the reasons that apply, `overlap` among them just when
  -- `booking_no_overlap` would refuse the row, and changes nothing; or else it sweeps the unit's
  -- lapsed holds and adds one pending hold of 15 minutes at the server's own price.
  pub create_public_booking_decides :
      (requires : Bool)
      → create_public_booking requires now id req db ≡ (
          if not requires || contains u.tenant_id db.credentials
          then decide
              (reasons_for (clashes row after_sweep.bookings) req u p)
              (ok (response, placed))
          else err payments_not_configured)
  unfolding create_public_booking enter_from_unit_id
  create_public_booking_decides requires =
      rw c.valid (rw c.unit (gate (not requires || contains u.tenant_id db.credentials)))
    where
      gate :
          (b : Bool)
          → (guard b payments_not_configured >> place_hold u.tenant_id now id req) db ≡ (
              if b
              then decide
                  (reasons_for (clashes row after_sweep.bookings) req u p)
                  (ok (response, placed))
              else err payments_not_configured)
      gate true = place_hold-eq
      gate false = refl
