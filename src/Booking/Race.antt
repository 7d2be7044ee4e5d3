-- ===== src/Booking/Race.antt =====
-- A checkout that others overtake between its re-check and its insert
-- (apps/api/src/bookings/bookings.service.ts, and the exception filter over
-- apps/api/src/common/db-error/db-error.map.ts).
use sambung.Common.{
  ℕ, ◌≡◌, refl, sym, ap, ◌∙◌, Bool, true, false, [], ◌∷◌, not, ◌||◌, ltb, Bool-cases, inl, inr,
  ◌++◌, subst,
}
use sambung.Stay.{meets_min_stay, count_nights}
use sambung.Db.Schema.{UnitRow, Db}
use sambung.Db.Tx.{
  overlap, unavailable, dates_unavailable, Result, ok, err, map_db_error, min_stay, max_guests,
}
use sambung.Db.Bookings.{clashes}
use sambung.Availability.{AvailabilityResponse, UnitPricing, push_if}
use sambung.Booking.{
  CreateBookingRequest, hold_row, insert_hold, refusals, sweep_quote_or_throw,
  create_public_booking, contains, CreateBookingResponse,
}
use sambung.Booking.Checkout.{Checkout, swept, reasons_for, decide, to_rupiah-pos}
use sambung.Booking.Decision.{
  quoted, sweep_quote-eq, insert-eq, create_public_booking_decides, response, placed, insert-taken,
}

-- The answer that the exception filter gives.
abbrev pub framed : {A : Type 0} → Result A → Result A
framed (ok a) = ok a
framed (err e) = err (map_db_error e)

answers :
    {x y : AvailabilityResponse} {a b : Db}
    → ◌≡◌ {A = Result (AvailabilityResponse × Db)} (ok (x, a)) (ok (y, b))
    → x ≡ y
answers e = cc

-- What passed one re-check is only refused for nights that are taken since.
reasons_for-passed :
    (was taken : Bool) (req : CreateBookingRequest) (u : UnitRow) (p : UnitPricing)
    → reasons_for was req u p ≡ []
    → reasons_for taken req u p ≡ push_if taken overlap
reasons_for-passed was taken req u p =
    only (meets_min_stay (count_nights req.check_in req.check_out) p.min_stay)
      (ltb u.max_guests req.guest_count) was taken
  where
    only :
        (long full was taken : Bool)
        → (push_if was overlap ++ push_if (not long) min_stay) ++ push_if full max_guests ≡ []
        → (push_if taken overlap ++ push_if (not long) min_stay) ++ push_if full max_guests
          ≡ push_if taken overlap
    only long full true taken e = cc
    only false full false taken e = cc
    only true true false taken e = cc
    only true false false true e = refl
    only true false false false e = refl

module _ (now id : ℕ) (req : CreateBookingRequest) (u : UnitRow) (p : UnitPricing) (price : ℕ)
    (before mid : Db) (checked : Checkout before now id req u p price)
    (overtaken : Checkout mid now id req u p price) where
  abbrev late : Db
  late = swept u.tenant_id now req.unit_id mid

  early : AvailabilityResponse
  early = quoted before now id req u p price checked

  abbrev done : Result (CreateBookingResponse × Db)
  done = ok (response mid now id req u p price overtaken, placed mid now id req u p price overtaken)

  insert_hold-taken :
      clashes (hold_row u.tenant_id now id req price) late.bookings ≡ true
      → framed (insert_hold u.tenant_id now id req early late)
        ≡ err (dates_unavailable (overlap ∷ []))
  unfolding insert_hold early quoted map_db_error
  insert_hold-taken taken = rw (insert-taken mid now id req u p price overtaken taken) refl

  insert_hold-free :
      clashes (hold_row u.tenant_id now id req price) late.bookings ≡ false
      → insert_hold u.tenant_id now id req early late ≡ done
  unfolding insert_hold early quoted
  insert_hold-free free =
      rw (insert-eq mid now id req u p price overtaken free) (rw (to_rupiah-pos _ overtaken.total))

  -- Either order of the two guards.
  raced :
      framed (insert_hold u.tenant_id now id req early late)
      ≡ framed (
          decide
            (push_if (clashes (hold_row u.tenant_id now id req price) late.bookings) overlap)
            done)
  unfolding map_db_error
  raced = elim (Bool-cases (clashes (hold_row u.tenant_id now id req price) late.bookings)) [
    | inl y ↦ rw y (insert_hold-taken y)
    | inr n ↦ rw (n, insert_hold-free n) refl
  ]

  early-refusals :
      refusals early u.max_guests req.guest_count
      ≡ reasons_for
          (clashes
            (hold_row u.tenant_id now id req price)
            (swept u.tenant_id now req.unit_id before).bookings)
          req
          u
          p
  unfolding early quoted
  early-refusals = refl

  begun_late :
      (requires : Bool)
      → (not requires || contains u.tenant_id mid.credentials) ≡ true
      → create_public_booking requires now id req mid
        ≡ decide
            (reasons_for (clashes (hold_row u.tenant_id now id req price) late.bookings) req u p)
            done
  begun_late requires configured =
      create_public_booking_decides mid now id req u p price overtaken requires ∙ rw configured refl

  in_order :
      (requires : Bool)
      → (not requires || contains u.tenant_id mid.credentials) ≡ true
      → refusals early u.max_guests req.guest_count ≡ []
      → framed (insert_hold u.tenant_id now id req early late)
        ≡ framed (create_public_booking requires now id req mid)
  in_order requires configured passed =
      raced
      ∙ ap (λ r. framed (decide r done))
          (sym (reasons_for-passed _ _ req u p (sym early-refusals ∙ passed)))
      ∙ ap framed (sym (begun_late requires configured))

  -- From consistent tables, earlier and later ones, with the same priced and live unit, the same
  -- total of the stay in them and a new id, a valid checkout whose re-check passed on the earlier
  -- tables and whose tenant can be paid in the later ones: its insert, on the later tables swept of
  -- the unit's lapsed holds, answers and writes just what the whole checkout would that begins on
  -- the later tables, with errors as the exception filter frames them; so a stay that others took
  -- since is refused as `dates_unavailable` with `overlap`, and any other is held.
  pub insert_hold-race :
      (requires : Bool) {q : AvailabilityResponse} {seen : Db}
      → (not requires || contains u.tenant_id mid.credentials) ≡ true
      → sweep_quote_or_throw u.tenant_id now req.unit_id req.check_in req.check_out unavailable
          before
        ≡ ok (q, seen)
      → refusals q u.max_guests req.guest_count ≡ []
      → framed (insert_hold u.tenant_id now id req q late)
        ≡ framed (create_public_booking requires now id req mid)
  unfolding early quoted
  insert_hold-race requires {q} {seen} configured quoted_before =
      let same : early ≡ q =
        answers (sym (sweep_quote-eq before now id req u p price checked) ∙ quoted_before) in
      subst
        (λ q.
          refusals q u.max_guests req.guest_count ≡ []
          → framed (insert_hold u.tenant_id now id req q late)
            ≡ framed (create_public_booking requires now id req mid))
        same (in_order requires configured)
