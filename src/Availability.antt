-- ===== src/Availability.antt =====
-- apps/api/src/bookings: `AvailabilityRepository` and `AvailabilityService`, with `toRupiah` of
-- packages/shared/src/money.ts and `PublicScope.enterFromUnitId`.
pub mod Agreement
use sambung.Common.{
  [], ℕ, ◌-◌, ◌^◌, min, max, Bool, true, false, not, ◌&&◌, ◌||◌, Option, none, some, List, ◌∷◌,
  ◌++◌, map, ◌==◌, if◌then◌else◌, find, select, order_by, non_empty,
}
use sambung.Common.Int.{ℤ, pos, pos_part, ltb_ℤ}
use sambung.Stay.{
  Range, PriceOverrideSpan, count_nights, quote_total_idr, meets_min_stay, coalesce_ranges,
  valid_window,
}
use sambung.Db.Schema.{Booking, occupying, Property, UnitRow, PriceOverride, Db}
use sambung.Db.Tx.{
  RefusalReason, overlap, min_stay, Error, bad_request, internal_server_error, Result, ok, err, Tx,
  ◌>>=◌, ◌>>◌, pure, throw, query, guard, or_throw, read,
}
use sambung.Db.Bookings.{ranges_overlap, unit_by_id}

abbrev pub max_safe_integer : ℕ
max_safe_integer = 2 ^ 53 - 1

-- A value out of range is a `RangeError`, which nothing catches: a 500.
unfoldable pub to_rupiah : ℤ → Result ℕ
to_rupiah value =
    if ltb_ℤ value (pos 0) || ltb_ℤ (pos max_safe_integer) value
    then err internal_server_error
    else ok (pos_part value)

pub record UnitPricing : Type 0 where
  pub base_price_idr : ℕ
  pub min_stay : ℕ
  pub archived : Bool

abbrev pub is_set : Option ℕ → Bool
is_set none = false
is_set (some t) = true

join_property : UnitRow → Option Property → Option UnitPricing
join_property u none = none
join_property u (some p) = some (record {
  base_price_idr = u.base_price_idr;
  min_stay = u.min_stay;
  archived = is_set u.archived_at || is_set p.archived_at;
})

-- `unit.id` and `property.id` are primary keys, so the first row is the only one.
of_unit : Db → ℕ → Option UnitRow → Option UnitPricing
unfolding join_property
of_unit db tenant none = none
of_unit db tenant (some u) =
    if u.tenant_id == tenant
    then join_property u
        (find (λ p. p.id == u.property_id && p.tenant_id == u.tenant_id) db.properties)
    else none

unfoldable pub fetch_unit_pricing : ℕ → ℕ → Db → Option UnitPricing
unfolding of_unit
fetch_unit_pricing tenant unit db = of_unit db tenant (unit_by_id db.units unit)

-- The WHERE of `findBlockedRanges`.
unfoldable pub blocks : ℕ → ℕ → ℕ → ℕ → Booking → Bool
unfolding occupying ranges_overlap
blocks tenant unit from to b =
    b.unit_id == unit
    && b.tenant_id == tenant
    && occupying b.status
    && ranges_overlap b.check_in b.check_out from to

abbrev pub clip : ℕ → ℕ → Booking → Range
clip from to b = record { from = max b.check_in from; to = min b.check_out to }

unfoldable pub find_blocked_ranges : ℕ → ℕ → ℕ → ℕ → Db → List Range
unfolding blocks
find_blocked_ranges tenant unit from to db =
    map (clip from to)
      (order_by (λ b. b.check_in) (select (blocks tenant unit from to) db.bookings))

abbrev pub prices_window : ℕ → ℕ → ℕ → ℕ → PriceOverride → Bool
prices_window tenant unit from to o =
    o.unit_id == unit && o.tenant_id == tenant && ranges_overlap o.from_date o.to_date from to

abbrev pub clip_override : ℕ → ℕ → PriceOverride → PriceOverrideSpan
clip_override from to o = record {
  from = max o.from_date from;
  to = min o.to_date to;
  nightly_price_idr = o.nightly_price_idr;
}

unfoldable pub find_price_overrides : ℕ → ℕ → ℕ → ℕ → Db → List PriceOverrideSpan
unfolding ranges_overlap
find_price_overrides tenant unit from to db =
    map (clip_override from to)
      (order_by (λ o. o.from_date) (select (prices_window tenant unit from to) db.price_overrides))

pub record AvailabilityResponse : Type 0 where
  pub available : Bool
  pub nights : ℤ
  pub total_price_idr : ℕ
  pub min_stay : ℕ
  pub reasons : List RefusalReason
  pub blocked_ranges : List Range

pub data QuoteOutcome : Type 0 where
  quoted : AvailabilityResponse → QuoteOutcome
  archived not_found : QuoteOutcome

abbrev pub push_if : Bool → RefusalReason → List RefusalReason
push_if true r = r ∷ []
push_if false r = []

frame_quote : UnitPricing → List Range → ℤ → Result ℕ → Result AvailabilityResponse
frame_quote pricing blocked nights (err e) = err e
frame_quote pricing blocked nights (ok total) =
    let taken = non_empty blocked in
    let min_stay_ok = meets_min_stay nights pricing.min_stay in
    ok (record {
      available = not taken && min_stay_ok;
      nights = nights;
      total_price_idr = total;
      min_stay = pricing.min_stay;
      reasons = push_if taken overlap ++ push_if (not min_stay_ok) min_stay;
      blocked_ranges = blocked;
    })

unfoldable pub respond :
    UnitPricing → List Range → List PriceOverrideSpan → ℕ → ℕ → Result AvailabilityResponse
unfolding frame_quote
respond pricing blocked overrides from to =
    frame_quote pricing blocked (count_nights from to)
      (to_rupiah (quote_total_idr pricing.base_price_idr from to overrides))

abbrev as_quoted : Result AvailabilityResponse → Result QuoteOutcome
as_quoted (ok r) = ok (QuoteOutcome.quoted r)
as_quoted (err e) = err e

pub quote_priced : ℕ → ℕ → ℕ → ℕ → Db → Option UnitPricing → Result QuoteOutcome
quote_priced tenant unit from to db none = ok QuoteOutcome.not_found
quote_priced tenant unit from to db (some pricing) =
    if pricing.archived
    then ok QuoteOutcome.archived
    else let blocked = coalesce_ranges (find_blocked_ranges tenant unit from to db) in
      let overrides = find_price_overrides tenant unit from to db in
      as_quoted (respond pricing blocked overrides from to)

-- A quote reads, and writes nothing.
unfoldable pub quote : ℕ → ℕ → ℕ → ℕ → Tx QuoteOutcome
unfolding quote_priced
quote tenant unit from to =
    read (λ db. quote_priced tenant unit from to db (fetch_unit_pricing tenant unit db))

-- `enterFromUnitId`: the tenant that owns the unit.
unfoldable pub enter_from_unit_id : ℕ → Tx ℕ
enter_from_unit_id unit = do
  row ← query (λ db. unit_by_id db.units unit)
  u ← or_throw row Error.not_found
  pure u.tenant_id

abbrev only_quoted : QuoteOutcome → Tx AvailabilityResponse
only_quoted (QuoteOutcome.quoted r) = pure r
only_quoted _ = throw Error.not_found

unfoldable pub get_public_quote : ℕ → ℕ → ℕ → Tx AvailabilityResponse
unfolding quote enter_from_unit_id
get_public_quote unit from to = do
  guard (valid_window from to) bad_request
  tenant ← enter_from_unit_id unit
  outcome ← quote tenant unit from to
  only_quoted outcome
