-- ===== src/Tests/Data.antt =====
-- One villa with one bookable unit, a weekend price, a confirmed stay and a lapsed hold.
use sambung.Db.Bookings.{unit_fk, clash}
use sambung.Db.Schema.{
  Property, UnitRow, PriceOverride, Booking, BookingStatus, pending_payment, confirmed, direct, Db,
}
use sambung.Common.{refl, List, ℕ, none, some, [], ◌∷◌}
use sambung.Db.Overlap.{IsConsistent}
use sambung.Booking.{CreateBookingRequest}

abbrev pub villa : Property
villa = record {
  id = 1;
  tenant_id = 7;
  time_zone = "Asia/Jakarta";
  deposit_pct = 50;
  archived_at = none;
}

abbrev pub garden_room : UnitRow
garden_room = record {
  id = 10;
  tenant_id = 7;
  property_id = 1;
  base_price_idr = 500000;
  max_guests = 2;
  min_stay = 2;
  archived_at = none;
}

abbrev pub weekend : PriceOverride
weekend = record {
  id = 20;
  unit_id = 10;
  tenant_id = 7;
  from_date = 104;
  to_date = 106;
  nightly_price_idr = 750000;
}

abbrev pub stay : ℕ → BookingStatus → ℕ → ℕ → Booking
stay id status from to = record {
  id = id;
  tenant_id = 7;
  unit_id = 10;
  source = direct;
  status = status;
  check_in = from;
  check_out = to;
  guest_name = some "Ayu";
  guest_phone = none;
  guest_email = none;
  guest_count = some 2;
  total_price_idr = some 1000000;
  external_uid = none;
  channel_connection_id = none;
  hold_expires_at = some 1000;
}

-- The hold on 103 to 105 has lapsed by moment 2000.
abbrev pub bookings : List Booking
bookings = stay 100 confirmed 100 103 ∷ stay 101 pending_payment 103 105 ∷ []

abbrev pub tables : Db
tables = record {
  properties = villa ∷ [];
  units = garden_room ∷ [];
  price_overrides = weekend ∷ [];
  bookings = bookings;
  payments = [];
  payment_events = [];
  connections = [];
  conflicts = [];
  credentials = 7 ∷ [];
  sealed = [];
}

pub tables-IsConsistent : IsConsistent tables
unfolding clash unit_fk
tables-IsConsistent = record {
  unique_ids = (refl, (refl, tt));
  no_overlap = (refl, (refl, tt));
  own_units = (refl, (refl, tt));
}

abbrev pub two_nights : CreateBookingRequest
two_nights = record {
  unit_id = 10;
  check_in = 103;
  check_out = 105;
  guest_name = "Budi";
  guest_phone = "+628111";
  guest_email = none;
  guest_count = 2;
}
