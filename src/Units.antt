-- ===== src/Units.antt =====
-- Units and their prices: apps/api/src/units/{units,price-overrides}.{service,repository}.ts, with the
-- constraints of `unit_price_override` (packages/db) and the request's schema of
-- packages/shared/src/price-override.ts. The ids of new rows are arguments.
pub mod Prices
pub mod Ledger
pub mod History
use sambung.Common.{
  ℕ, Bool, true, false, not, ◌&&◌, min, max, Option, none, some, List, ◌∷◌, ltb, leb, ◌==◌,
  if◌then◌else◌, any, select, length,
}
use sambung.Db.Schema.{PriceOverride, UnitRow, Booking, ChannelConnection, Db}
use sambung.Db.Tx.{
  Constraint, price_override_range_nonempty, price_override_nightly_range, price_override_pkey,
  price_override_no_overlap, price_override_unit_tenant_fk, booking_unit_fk, not_found, bad_request,
  violates, price_override_overlap, unit_has_bookings, Tx, ◌>>=◌, ◌>>◌, pure, throw, query, modify,
  guard, committed,
}
use sambung.Db.Bookings.{update_where}

-- `MAX_NIGHTLY_RATE_IDR`
abbrev pub max_nightly_rate_idr : ℕ
max_nightly_rate_idr = 1000000000

pub record CreatePriceOverrideRequest : Type 0 where
  pub from : ℕ
  pub to : ℕ
  pub nightly_price_idr : ℕ

abbrev pub in_nightly_range : ℕ → Bool
in_nightly_range price = leb 1 price && leb price max_nightly_rate_idr

unfoldable pub valid_override_request : CreatePriceOverrideRequest → Bool
valid_override_request req = in_nightly_range req.nightly_price_idr && ltb req.from req.to

abbrev pub is_unit_of : ℕ → ℕ → UnitRow → Bool
is_unit_of tenant id u = u.id == id && u.tenant_id == tenant

abbrev pub unit_owned : ℕ → ℕ → Db → Bool
unit_owned tenant id db = any (is_unit_of tenant id) db.units

-- `daterange(…) && daterange(…)` of ranges that are not empty
abbrev pub shares_night : ℕ → ℕ → PriceOverride → Bool
shares_night from to o = ltb (max o.from_date from) (min o.to_date to)

unfoldable pub overlap_exists : ℕ → ℕ → ℕ → ℕ → Db → Bool
overlap_exists tenant unit from to db =
    any (λ o. o.unit_id == unit && o.tenant_id == tenant && shares_night from to o)
      db.price_overrides

-- `price_override_no_overlap` of a new row
abbrev pub clashes_with : PriceOverride → PriceOverride → Bool
clashes_with new o = o.unit_id == new.unit_id && shares_night new.from_date new.to_date o

unfoldable pub override_check : PriceOverride → Db → Option Constraint
override_check o db =
    if not (ltb o.from_date o.to_date)
    then some price_override_range_nonempty
    else if not (in_nightly_range o.nightly_price_idr)
    then some price_override_nightly_range
    else if any (λ p. p.id == o.id) db.price_overrides
    then some price_override_pkey
    else if any (clashes_with o) db.price_overrides
    then some price_override_no_overlap
    else if not (unit_owned o.tenant_id o.unit_id db)
    then some price_override_unit_tenant_fk
    else none

abbrev pub write_override : PriceOverride → Option Constraint → Tx PriceOverride
write_override o (some c) = throw (violates c)
write_override o none = do
  modify λ db. record db { price_overrides = o ∷ db.price_overrides }
  pure o

unfoldable pub insert_override : PriceOverride → Tx PriceOverride
unfolding override_check
insert_override o = do refused ← query (override_check o); write_override o refused

abbrev pub override_row : ℕ → ℕ → ℕ → CreatePriceOverrideRequest → PriceOverride
override_row tenant id unit req = record {
  id = id;
  unit_id = unit;
  tenant_id = tenant;
  from_date = req.from;
  to_date = req.to;
  nightly_price_idr = req.nightly_price_idr;
}

-- `PriceOverridesService.create`
unfoldable pub create_price_override : ℕ → ℕ → ℕ → CreatePriceOverrideRequest → Tx PriceOverride
unfolding insert_override overlap_exists valid_override_request
create_price_override tenant id unit req = do
  guard (valid_override_request req) bad_request
  owned ← query (unit_owned tenant unit)
  guard owned not_found
  taken ← query (overlap_exists tenant unit req.from req.to)
  guard (not taken) price_override_overlap
  insert_override (override_row tenant id unit req)

abbrev is_override_of : ℕ → ℕ → PriceOverride → Bool
is_override_of tenant id o = o.id == id && o.tenant_id == tenant

-- `PriceOverridesService.remove`
unfoldable pub remove_price_override : ℕ → ℕ → Tx (Unit {0})
remove_price_override tenant id = do
  found ← query (λ db. any (is_override_of tenant id) db.price_overrides)
  guard found not_found
  modify λ db. record db {
    price_overrides = select (λ o. not (is_override_of tenant id o)) db.price_overrides;
  }

-- An archived unit keeps the moment of its first archiving.
abbrev pub archived_since : ℕ → Bool → Option ℕ → Option ℕ
archived_since now false since = none
archived_since now true none = some now
archived_since now true (some t) = some t

abbrev pub mark_archived : ℕ → Bool → UnitRow → UnitRow
mark_archived now archived u = record u { archived_at = archived_since now archived u.archived_at }

-- `UnitsService.archive` and `unarchive`
unfoldable pub set_archived : ℕ → ℕ → ℕ → Bool → Tx (Unit {0})
set_archived tenant now id archived = do
  found ← query (unit_owned tenant id)
  guard found not_found
  modify λ db. record db {
    units = update_where (is_unit_of tenant id) (mark_archived now archived) db.units;
  }

unfoldable pub count_bookings : ℕ → ℕ → Db → ℕ
count_bookings tenant unit db =
    length (select (λ b. b.unit_id == unit && b.tenant_id == tenant) db.bookings)

abbrev pub same_connection : Option ℕ → ℕ → Bool
same_connection none id = false
same_connection (some c) id = c == id

abbrev pub of_gone_unit : ℕ → List ChannelConnection → Booking → Bool
of_gone_unit unit cs b =
    any (λ c. c.unit_id == unit && same_connection b.channel_connection_id c.id) cs

abbrev pub without_connection : Booking → Booking
without_connection b = record b { channel_connection_id = none }

-- `onDelete` of the tables that refer to the unit.
unfoldable pub cascade_unit : ℕ → Db → Db
cascade_unit unit db = record db {
  price_overrides = select (λ o. not (o.unit_id == unit)) db.price_overrides;
  connections = select (λ c. not (c.unit_id == unit)) db.connections;
  conflicts = select (λ c. not (c.unit_id == unit)) db.conflicts;
  bookings = update_where (of_gone_unit unit db.connections) without_connection db.bookings;
}

unfoldable pub delete_unit : ℕ → ℕ → Tx (Unit {0})
unfolding cascade_unit
delete_unit tenant id = do
  referred ← query (λ db. any (λ b. b.unit_id == id) db.bookings)
  guard (not referred) (violates booking_unit_fk)
  modify λ db.
      cascade_unit id (record db { units = select (λ u. not (is_unit_of tenant id u)) db.units })

-- `UnitsService.remove`
unfoldable pub remove_unit : ℕ → ℕ → Tx (Unit {0})
unfolding delete_unit count_bookings
remove_unit tenant id = do
  found ← query (unit_owned tenant id)
  guard found not_found
  n ← query (count_bookings tenant id)
  guard (not (ltb 0 n)) (unit_has_bookings n)
  delete_unit tenant id

-- A request that writes units or prices, and the tables after it.
pub data UnitStep (db : Db) : Db → Type 0 where
  override_created :
      (tenant id unit : ℕ) (req : CreatePriceOverrideRequest)
      → UnitStep db (committed db (create_price_override tenant id unit req db))
  override_removed :
      (tenant id : ℕ) → UnitStep db (committed db (remove_price_override tenant id db))
  archiving :
      (tenant now id : ℕ) (archived : Bool)
      → UnitStep db (committed db (set_archived tenant now id archived db))
  unit_removed : (tenant id : ℕ) → UnitStep db (committed db (remove_unit tenant id db))
