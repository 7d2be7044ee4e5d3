-- ===== src/Stay.antt =====
-- packages/shared/src/availability.ts: the interval primitives of a stay.
-- A calendar date is its day number: `Date.parse` of `YYYY-MM-DD` at UTC midnight is that number
-- times the milliseconds of a day, and the text order of such dates is the order of the numbers.
pub mod Pricing
pub mod Coalesce
pub mod Canonical
use sambung.Common.{[], ℕ, Bool, ◌&&◌, not, List, ◌∷◌, ltb, leb, if◌then◌else◌}
use sambung.Common.Int.{ℤ, pos, ◌+ℤ◌, ◌-ℤ◌, ◌*ℤ◌, ltb_ℤ}

abbrev pub max_availability_nights : ℕ
max_availability_nights = 366

-- The half-open `[from, to)`.
pub record Range : Type 0 where
  pub from : ℕ
  pub to : ℕ

unfoldable pub count_nights : ℕ → ℕ → ℤ
count_nights from to = pos to -ℤ pos from

pub record PriceOverrideSpan : Type 0 where
  pub from : ℕ
  pub to : ℕ
  pub nightly_price_idr : ℕ

-- One round of the loop of `quoteTotalIdr`.
add_override : ℕ → ℕ → ℕ → ℤ → PriceOverrideSpan → ℤ
add_override base from to total o =
    let overlap_from = if ltb from o.from then o.from else from in
    let overlap_to = if ltb o.to to then o.to else to in
    let nights = count_nights overlap_from overlap_to in
    if ltb_ℤ (pos 0) nights then total +ℤ (pos o.nightly_price_idr -ℤ pos base) *ℤ nights else total

add_overrides : ℕ → ℕ → ℕ → ℤ → List PriceOverrideSpan → ℤ
add_overrides base from to total [] = total
add_overrides base from to total (o ∷ os) =
    add_overrides base from to (add_override base from to total o) os

unfoldable pub quote_total_idr : ℕ → ℕ → ℕ → List PriceOverrideSpan → ℤ
unfolding add_overrides add_override count_nights
quote_total_idr base from to overrides =
    add_overrides base from to (pos base *ℤ count_nights from to) overrides

unfoldable pub meets_min_stay : ℤ → ℕ → Bool
meets_min_stay nights min_stay = not (ltb_ℤ nights (pos min_stay))

-- The day before the check-out day, a date that may not exist before day 0.
pub last_night_of : Range → ℤ
last_night_of r = pos r.to -ℤ pos 1

-- `[...ranges].sort(…)` by `from`, which is stable.
insert_by_from : Range → List Range → List Range
insert_by_from r [] = r ∷ []
insert_by_from r (s ∷ ss) =
    let rest = insert_by_from r ss in if leb r.from s.from then r ∷ s ∷ ss else s ∷ rest

sort_by_from : List Range → List Range
sort_by_from [] = []
sort_by_from (r ∷ rs) = insert_by_from r (sort_by_from rs)

-- The loop, with `last` the range at the end of `merged`.
merge_from : Range → List Range → List Range
merge_from last [] = last ∷ []
merge_from last (next ∷ rest) =
    let longer =
      merge_from (record last { to = if ltb last.to next.to then next.to else last.to }) rest in
    let pushed = last ∷ merge_from next rest in if leb next.from last.to then longer else pushed

merge_sorted : List Range → List Range
merge_sorted [] = []
merge_sorted (r ∷ rs) = merge_from r rs

unfoldable pub coalesce_ranges : List Range → List Range
unfolding merge_sorted merge_from sort_by_from insert_by_from
coalesce_ranges ranges = merge_sorted (sort_by_from ranges)

-- The two refinements of `availabilityQuerySchema`, which the booking bodies share.
unfoldable pub valid_window : ℕ → ℕ → Bool
valid_window from to =
    ltb from to && not (ltb_ℤ (pos max_availability_nights) (count_nights from to))
