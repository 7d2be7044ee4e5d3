-- ===== src/Tests/Units.antt =====
-- Prices and units of the villa.
use sambung.Channels.{connect}
use sambung.Channels.Keeps.{connected}
use sambung.Tests.ChannelSync.{parse}
use sambung.Common.{◌+◌, ◌≡◌, refl, true, [], ℕ, ◌≢◌, none}
use sambung.Common.Int.{pos}
use sambung.Stay.{quote_total_idr}
use sambung.Db.Schema.{Db, airbnb}
use sambung.Db.Overlap.{IsConsistent}
use sambung.Db.Tx.{err, committed, bad_request, price_override_overlap, unit_has_bookings, Error}
use sambung.Availability.{find_price_overrides}
use sambung.Booking.{sweep_expired_holds}
use sambung.System.{tick}
use sambung.Units.{
  CreatePriceOverrideRequest, create_price_override, remove_price_override, set_archived,
  remove_unit, override_created,
}
use sambung.Units.Prices.{stay_price}
use sambung.Units.History.{
  History, start, request, inventory, History-stay_price, History-IsConsistent, channel,
}
use sambung.Tests.Data.{tables, tables-IsConsistent}
use sambung.Payments.{GatewayCredential, ParsedPaymentEvent}

abbrev season : ℕ → ℕ → CreatePriceOverrideRequest
season from to = record { from = from; to = to; nightly_price_idr = 900000 }

abbrev priced : Db
priced = committed tables (create_price_override 7 21 10 (season 106 109) tables)

abbrev quiet : Db
quiet = record tables { bookings = [] }

abbrev swept : Db
swept = committed priced (sweep_expired_holds 2000 priced)

-- Seasons may meet and may not share a night.
season_test :
    (create_price_override 7 21 10 (season 105 108) tables ≡ err price_override_overlap)
    × (create_price_override 7 21 10 (season 108 108) tables ≡ err bad_request)
    × (create_price_override 8 21 10 (season 106 109) tables ≡ err Error.not_found)
    × (stay_price 7 10 500000 priced.price_overrides 103 5 ≡ 3800000)
    × (committed priced (remove_price_override 7 21 priced) ≡ tables)
unfolding create_price_override stay_price remove_price_override
season_test = (refl, refl, refl, refl, refl)

removal_test :
    (remove_unit 7 10 tables ≡ err (unit_has_bookings 2))
    × ((committed quiet (remove_unit 7 10 quiet)).units ≡ [])
    × ((committed quiet (remove_unit 7 10 quiet)).price_overrides ≡ [])
    × (committed tables (set_archived 7 900 10 true tables) ≢ tables)
unfolding remove_unit set_archived
removal_test = (refl, refl, refl, λ e. cc)

abbrev linked : Db
linked = committed swept (connect 7 3000 5 10 airbnb "https://airbnb.example/10.ics" none swept)

history : History (GatewayCredential × ParsedPaymentEvent) (λ url. true) parse tables linked
unfolding create_price_override
history =
    channel (request (inventory start (override_created 7 21 10 (season 106 109))) (tick 2000))
      (connected 7 3000 5 10 airbnb "https://airbnb.example/10.ics" none)

History-stay_price_example :
    quote_total_idr 500000 103 (103 + 5) (find_price_overrides 7 10 103 (103 + 5) linked)
    ≡ pos (stay_price 7 10 500000 linked.price_overrides 103 5)
History-stay_price_example =
    History-stay_price (λ url. true) parse 7 10 500000 103 5 (refl, tt) history

History-IsConsistent_example : IsConsistent linked
History-IsConsistent_example = History-IsConsistent (λ url. true) parse tables-IsConsistent history
