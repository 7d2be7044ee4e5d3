-- ===== src/Tests/Bookings.antt =====
-- Runs of the bookings module, a checkout, an owner's write and a cancel.
use sambung.OwnerBooking.Cancel.{cancel_decides}
use sambung.Common.Int.{pos}
use sambung.Stay.{quote_total_idr, count_nights, meets_min_stay}
use sambung.Db.Bookings.{clash}
use sambung.Booking.Race.{insert_hold-race, framed}
use sambung.OwnerBooking.{nothing, cancel, has_paid_payment}
use sambung.Availability.{find_price_overrides, to_rupiah, fetch_unit_pricing, UnitPricing}
use sambung.Common.{arith, true, false, refl, [], ◌∷◌, ◌≡◌}
use sambung.Db.Schema.{Db, BookingStatus, occupying, pending_payment, confirmed, expired}
use sambung.Db.Tx.{ok}
use sambung.Tests.Data.{stay, tables, tables-IsConsistent, two_nights, garden_room}
use sambung.Booking.Sweep.{sweep_again}
use sambung.Booking.{
  sweep_expired_holds, insert_hold, is_lapsed, valid_request, create_public_booking, hold_row,
}
use sambung.Booking.Checkout.{Checkout, swept}
use sambung.Booking.Decision.{create_public_booking_decides, sweep_quote-eq}

abbrev room_price : UnitPricing
room_price = record { base_price_idr = 500000; min_stay = 2; archived = false }

two_nights-Checkout : Checkout tables 2000 200 two_nights garden_room room_price 1250000
unfolding valid_request fetch_unit_pricing to_rupiah quote_total_idr find_price_overrides
    count_nights sambung.Stay.valid_window sambung.Common.Int.◌-ℤ◌ sambung.Common.Int.◌+ℤ◌
    sambung.Common.Int.◌*ℤ◌
two_nights-Checkout = record {
  consistent = tables-IsConsistent;
  valid = refl;
  unit = refl;
  priced = refl;
  live = refl;
  total = refl;
  fresh = refl;
}

-- The lapsed hold makes room for a new one.
create_public_booking_decides_example :
    create_public_booking true 2000 200 two_nights tables
    ≡ ok (
      record {
        booking_id = 200;
        status = pending_payment;
        hold_expires_at = 902000;
        total_price_idr = 1250000;
        nights = pos 2;
      },
      record tables {
        bookings =
            hold_row 7 2000 200 two_nights 1250000
            ∷ stay 100 confirmed 100 103
            ∷ stay 101 expired 103 105
            ∷ [];
      },
    )
unfolding is_lapsed clash meets_min_stay count_nights sambung.Common.Int.◌-ℤ◌
create_public_booking_decides_example =
    create_public_booking_decides tables 2000 200 two_nights garden_room room_price 1250000
      two_nights-Checkout true

cancel_decides_example :
    cancel 7 100 tables
    ≡ ok (
      nothing,
      record tables {
        bookings = stay 100 BookingStatus.cancelled 100 103 ∷ stay 101 pending_payment 103 105 ∷ [];
      },
    )
unfolding has_paid_payment occupying
cancel_decides_example = cancel_decides 7 100 tables tables-IsConsistent.unique_ids

-- Another checkout has swept the lapsed hold and confirmed one of the two nights.
abbrev later_tables : Db
later_tables = record tables {
  bookings =
      stay 100 confirmed 100 103 ∷ stay 101 expired 103 105 ∷ stay 102 confirmed 104 106 ∷ [];
}

later_tables-Checkout : Checkout later_tables 2000 200 two_nights garden_room room_price 1250000
unfolding valid_request fetch_unit_pricing to_rupiah quote_total_idr find_price_overrides
    count_nights sambung.Stay.valid_window sambung.Common.Int.◌-ℤ◌ sambung.Common.Int.◌+ℤ◌
    sambung.Common.Int.◌*ℤ◌ clash sambung.Db.Bookings.unit_fk
later_tables-Checkout = record {
  consistent = record {
    unique_ids = (refl, (refl, (refl, tt)));
    no_overlap = (refl, (refl, (refl, tt)));
    own_units = (refl, (refl, (refl, tt)));
  };
  valid = refl;
  unit = refl;
  priced = refl;
  live = refl;
  total = refl;
  fresh = refl;
}

-- The re-check answered before the other checkout, the insert comes after it.
insert_hold-race_example :
    framed (
      insert_hold 7 2000 200 two_nights
        (record {
          available = true;
          nights = pos 2;
          total_price_idr = 1250000;
          min_stay = 2;
          reasons = [];
          blocked_ranges = [];
        })
        (swept 7 2000 10 later_tables))
    ≡ framed (create_public_booking true 2000 200 two_nights later_tables)
unfolding sambung.Booking.Decision.quoted clash meets_min_stay count_nights
    sambung.Stay.coalesce_ranges sambung.Availability.find_blocked_ranges sambung.Common.Int.◌-ℤ◌
    is_lapsed
insert_hold-race_example =
    insert_hold-race 2000 200 two_nights garden_room room_price 1250000 tables later_tables
      two_nights-Checkout later_tables-Checkout true refl
      (sweep_quote-eq tables 2000 200 two_nights garden_room room_price 1250000 two_nights-Checkout)
      refl

abbrev swept_tables : Db
swept_tables = record tables {
  bookings = stay 100 confirmed 100 103 ∷ stay 101 expired 103 105 ∷ [];
}

sweep_again_example : sweep_expired_holds 1500 swept_tables ≡ ok (0, swept_tables)
unfolding sweep_expired_holds
sweep_again_example = sweep_again 1500 2000 1 tables (omega arith) refl
