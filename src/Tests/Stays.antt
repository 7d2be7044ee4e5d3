-- ===== src/Tests/Stays.antt =====
-- Runs of the interval primitives, and of the quote.
use sambung.Availability.Agreement.{blocked_ranges-occupies, blocked-clashes}
use sambung.Db.Overlap.{occupies}
use sambung.Db.Schema.{occupying, confirmed}
use sambung.Db.Bookings.{unit_fk, clashes}
use sambung.Availability.{find_blocked_ranges}
use sambung.Stay.Canonical.{coalesce_ranges_canonical}
use sambung.Stay.Pricing.{quote_total_idr-nightly_total, nightly_total}
use sambung.Common.Int.{pos}
use sambung.Stay.Coalesce.{
  holds, covers-coalesce_ranges, coalesce_ranges-IsSeparated, IsSeparated, covers,
}
use sambung.Common.{any, ◌&&◌, non_empty, arith, refl, ◌≡◌, [], ◌∷◌, ◌+◌, ℕ}
use sambung.Stay.{Range, PriceOverrideSpan, quote_total_idr, coalesce_ranges}
use sambung.Tests.Data.{stay, tables, tables-IsConsistent}

abbrev weekend_rate : PriceOverrideSpan
weekend_rate = record { from = 104; to = 106; nightly_price_idr = 750000 }

abbrev new_year : PriceOverrideSpan
new_year = record { from = 108; to = 110; nightly_price_idr = 900000 }

weekend_total : quote_total_idr 500000 103 106 (weekend_rate ∷ []) ≡ pos 2000000
unfolding quote_total_idr sambung.Common.Int.◌-ℤ◌ sambung.Common.Int.◌+ℤ◌ sambung.Common.Int.◌*ℤ◌
weekend_total = refl

quote_total_idr-nightly_total_example :
    quote_total_idr 500000 103 (103 + 3) (weekend_rate ∷ new_year ∷ [])
    ≡ pos (nightly_total 500000 (weekend_rate ∷ new_year ∷ []) 103 3)
quote_total_idr-nightly_total_example =
    quote_total_idr-nightly_total 500000 103 3 (weekend_rate ∷ new_year ∷ [])
      ((ground arith, tt), (tt, tt))

abbrev span : ℕ → ℕ → Range
span from to = record { from = from; to = to }

touching : coalesce_ranges (span 5 7 ∷ span 1 3 ∷ span 3 4 ∷ []) ≡ span 1 4 ∷ span 5 7 ∷ []
unfolding coalesce_ranges
touching = refl

covers-coalesce_ranges_example :
    covers (coalesce_ranges (span 5 7 ∷ span 1 3 ∷ [])) 2 ≡ covers (span 5 7 ∷ span 1 3 ∷ []) 2
covers-coalesce_ranges_example = covers-coalesce_ranges (span 5 7 ∷ span 1 3 ∷ []) 2

coalesce_ranges-IsSeparated_example : IsSeparated (coalesce_ranges (span 5 7 ∷ span 1 3 ∷ []))
coalesce_ranges-IsSeparated_example =
    coalesce_ranges-IsSeparated (span 5 7 ∷ span 1 3 ∷ []) (ground arith, (ground arith, tt))

coalesce_ranges_canonical_example :
    coalesce_ranges (span 1 2 ∷ span 2 4 ∷ []) ≡ coalesce_ranges (span 2 4 ∷ span 1 3 ∷ [])
coalesce_ranges_canonical_example =
    coalesce_ranges_canonical (span 1 2 ∷ span 2 4 ∷ []) (span 2 4 ∷ span 1 3 ∷ [])
      (ground arith, (ground arith, tt)) (ground arith, (ground arith, tt)) (λ d. ground arith)

blocked-clashes_example :
    non_empty (coalesce_ranges (find_blocked_ranges 7 10 102 104 tables))
    ≡ clashes (stay 300 confirmed 102 104) tables.bookings
blocked-clashes_example =
    blocked-clashes tables (stay 300 confirmed 102 104) tables-IsConsistent.own_units
      (unfold unit_fk in refl) (unfold occupying in refl)

blocked_ranges-occupies_example :
    covers (coalesce_ranges (find_blocked_ranges 7 10 98 104 tables)) 103
    ≡ (holds (span 98 104) 103 && any (occupies 10 103) tables.bookings)
blocked_ranges-occupies_example =
    blocked_ranges-occupies tables (stay 300 confirmed 102 104) 98 104 103
      tables-IsConsistent.own_units (unfold unit_fk in refl)
