-- ===== src/Units/Prices.antt =====
-- What the exclusion constraint on price overrides is for: each night of a quote has one price, whatever
-- the order and the clipping of the overrides that the quote reads.
use sambung.Db.Bookings.{ranges_overlap}
use sambung.Common.{
  ℕ, ◌+◌, ◌≤◌, ◌<◌, ◌≡◌, refl, ap, ◌∙◌, Bool, true, false, ◌&&◌, List, [], ◌∷◌, ltb, leb, ◌==◌,
  if◌then◌else◌, any, All, select, map, order_by, insert_by, any-order_by, any-select-false,
  Bool-cases, inl, inr, arith, zero, suc, any-insert_by,
}
use sambung.Common.Int.{pos}
use sambung.Stay.{quote_total_idr}
use sambung.Stay.Pricing.{
  nightly_rate, nightly_total, Apart, PairwiseApart, quote_total_idr-nightly_total,
}
use sambung.Db.Schema.{PriceOverride, Db}
use sambung.Availability.{find_price_overrides, prices_window, clip_override}
use sambung.Units.{clashes_with}

-- `price_override_no_overlap`
abbrev pub OverridesApart : List PriceOverride → Type 0
OverridesApart [] = Unit
OverridesApart (o ∷ os) = (any (clashes_with o) os ≡ false) × OverridesApart os

-- The night of day `d` of the tenant's unit has the price of this row.
abbrev pub prices_night : ℕ → ℕ → ℕ → PriceOverride → Bool
prices_night tenant unit d o =
    o.unit_id == unit && o.tenant_id == tenant && leb o.from_date d && ltb d o.to_date

-- The price of one night: that of the row that has it, else the base.
unfoldable pub night_price : ℕ → ℕ → ℕ → List PriceOverride → ℕ → ℕ
night_price tenant unit base [] d = base
night_price tenant unit base (o ∷ os) d =
    let rest = night_price tenant unit base os d in
    if prices_night tenant unit d o then o.nightly_price_idr else rest

-- The nights of a stay, each at its own price.
unfoldable pub stay_price : ℕ → ℕ → ℕ → List PriceOverride → ℕ → ℕ → ℕ
unfolding night_price
stay_price tenant unit base os from zero = 0
stay_price tenant unit base os from (suc n) =
    stay_price tenant unit base os from n + night_price tenant unit base os (from + n)

abbrev key : PriceOverride → ℕ
key o = o.from_date

pub select-OverridesApart :
    (q : PriceOverride → Bool) (os : List PriceOverride)
    → OverridesApart os
    → OverridesApart (select q os)
select-OverridesApart q [] h = tt
select-OverridesApart q (o ∷ os) h = elim (Bool-cases (q o)) [
  | inl y ↦ rw y (any-select-false (clashes_with o) q os h.0, select-OverridesApart q os h.1)
  | inr n ↦ rw n (select-OverridesApart q os h.1)
]

module _ (tenant unit base : ℕ) where
  night_price-none :
      (os : List PriceOverride) (d : ℕ)
      → any (prices_night tenant unit d) os ≡ false
      → night_price tenant unit base os d ≡ base
  unfolding night_price
  night_price-none [] d h = refl
  night_price-none (o ∷ os) d h = ground (arith, night_price-none os d)

  -- A clash-free row shares no night.
  apart-night :
      (o : PriceOverride) (os : List PriceOverride) (d : ℕ)
      → any (clashes_with o) os ≡ false
      → prices_night tenant unit d o ≡ true
      → any (prices_night tenant unit d) os ≡ false
  apart-night o [] d h e = refl
  apart-night o (p ∷ os) d h e = ground (arith, apart-night o os d)

  night_price-insert :
      (o : PriceOverride) (os : List PriceOverride) (d : ℕ)
      → any (clashes_with o) os ≡ false
      → OverridesApart os
      → night_price tenant unit base (insert_by key o os) d
        ≡ night_price tenant unit base (o ∷ os) d
  unfolding night_price
  night_price-insert o [] d h a = refl
  night_price-insert o (p ∷ os) d h a =
      ground (arith, night_price-insert o os d, apart-night o (p ∷ os) d h)

  clash_other :
      (o p : PriceOverride) (os : List PriceOverride)
      → any (clashes_with o) (p ∷ os) ≡ false
      → any (clashes_with p) os ≡ false
      → any (clashes_with p) (o ∷ os) ≡ false
  clash_other o p os h a = ground arith

  insert-OverridesApart :
      (o : PriceOverride) (os : List PriceOverride)
      → any (clashes_with o) os ≡ false
      → OverridesApart os
      → OverridesApart (insert_by key o os)
  insert-OverridesApart o [] h a = (refl, tt)
  insert-OverridesApart o (p ∷ os) h a = elim (Bool-cases (leb (key o) (key p))) [
    | inl y ↦ rw y (h, a)
    | inr n ↦ rw n (
      any-insert_by key (clashes_with p) o os ∙ clash_other o p os h a.0,
      insert-OverridesApart o os (ground arith) a.1,
    )
  ]

  order_by-OverridesApart :
      (os : List PriceOverride) → OverridesApart os → OverridesApart (order_by key os)
  order_by-OverridesApart [] h = tt
  order_by-OverridesApart (o ∷ os) h =
      insert-OverridesApart o (order_by key os) (any-order_by key (clashes_with o) os ∙ h.0)
        (order_by-OverridesApart os h.1)

  night_price-order_by :
      (os : List PriceOverride) (d : ℕ)
      → OverridesApart os
      → night_price tenant unit base (order_by key os) d ≡ night_price tenant unit base os d
  unfolding night_price
  night_price-order_by [] d h = refl
  night_price-order_by (o ∷ os) d h =
      night_price-insert o (order_by key os) d (any-order_by key (clashes_with o) os ∙ h.0)
        (order_by-OverridesApart os h.1)
      ∙ ap (λ r. if prices_night tenant unit d o then o.nightly_price_idr else r)
          (night_price-order_by os d h.1)

  night_price-select :
      (from to : ℕ) (os : List PriceOverride) (d : ℕ)
      → from ≤ d
      → d < to
      → night_price tenant unit base (select (prices_window tenant unit from to) os) d
        ≡ night_price tenant unit base os d
  unfolding night_price ranges_overlap
  night_price-select from to [] d l u = refl
  night_price-select from to (o ∷ os) d l u = ground (arith, night_price-select from to os d l u)

  nightly_rate-clip :
      (from to : ℕ) (os : List PriceOverride) (d : ℕ)
      → from ≤ d
      → d < to
      → All (λ o. prices_window tenant unit from to o ≡ true) os
      → nightly_rate base (map (clip_override from to) os) d ≡ night_price tenant unit base os d
  unfolding night_price
  nightly_rate-clip from to [] d l u h = refl
  nightly_rate-clip from to (o ∷ os) d l u h =
      ground (arith, nightly_rate-clip from to os d l u h.1, h.0)

  clip-Apart :
      (from to : ℕ) (o : PriceOverride) (os : List PriceOverride)
      → prices_window tenant unit from to o ≡ true
      → All (λ p. prices_window tenant unit from to p ≡ true) os
      → any (clashes_with o) os ≡ false
      → All (Apart (clip_override from to o)) (map (clip_override from to) os)
  unfolding ranges_overlap
  clip-Apart from to o [] w ws h = tt
  clip-Apart from to o (p ∷ os) w ws h =
      let first = ws.0 in (ground arith, clip-Apart from to o os w ws.1 (ground arith))

  clip-PairwiseApart :
      (from to : ℕ) (os : List PriceOverride)
      → All (λ o. prices_window tenant unit from to o ≡ true) os
      → OverridesApart os
      → PairwiseApart (map (clip_override from to) os)
  clip-PairwiseApart from to [] w h = tt
  clip-PairwiseApart from to (o ∷ os) w h =
      (clip-Apart from to o os w.0 w.1 h.0, clip-PairwiseApart from to os w.1 h.1)

  select-All :
      (q : PriceOverride → Bool) (os : List PriceOverride) → All (λ o. q o ≡ true) (select q os)
  select-All q [] = tt
  select-All q (o ∷ os) = elim (Bool-cases (q o)) [
    | inl y ↦ rw y (y, select-All q os)
    | inr n ↦ rw n (select-All q os)
  ]

  insert-All :
      (q : PriceOverride → Bool) (o : PriceOverride) (os : List PriceOverride)
      → q o ≡ true
      → All (λ p. q p ≡ true) os
      → All (λ p. q p ≡ true) (insert_by key o os)
  insert-All q o [] e h = (e, tt)
  insert-All q o (p ∷ os) e h = elim (Bool-cases (leb (key o) (key p))) [
    | inl y ↦ rw y (e, h)
    | inr n ↦ rw n (h.0, insert-All q o os e h.1)
  ]

  order_by-All :
      (q : PriceOverride → Bool) (os : List PriceOverride)
      → All (λ p. q p ≡ true) os
      → All (λ p. q p ≡ true) (order_by key os)
  order_by-All q [] h = tt
  order_by-All q (o ∷ os) h = insert-All q o (order_by key os) h.0 (order_by-All q os h.1)

  -- One night of the quote.
  find_price_overrides-night :
      (from to : ℕ) (db : Db) (d : ℕ)
      → from ≤ d
      → d < to
      → OverridesApart db.price_overrides
      → nightly_rate base (find_price_overrides tenant unit from to db) d
        ≡ night_price tenant unit base db.price_overrides d
  unfolding find_price_overrides
  find_price_overrides-night from to db d l u h =
      let mine = select (prices_window tenant unit from to) db.price_overrides in
      nightly_rate-clip from to (order_by key mine) d l u
        (order_by-All _ mine (select-All (prices_window tenant unit from to) db.price_overrides))
      ∙ night_price-order_by mine d (select-OverridesApart _ db.price_overrides h)
      ∙ night_price-select from to db.price_overrides d l u

  find_price_overrides-PairwiseApart :
      (from to : ℕ) (db : Db)
      → OverridesApart db.price_overrides
      → PairwiseApart (find_price_overrides tenant unit from to db)
  unfolding find_price_overrides
  find_price_overrides-PairwiseApart from to db h =
      let mine = select (prices_window tenant unit from to) db.price_overrides in
      clip-PairwiseApart from to (order_by key mine)
        (order_by-All _ mine (select-All (prices_window tenant unit from to) db.price_overrides))
        (order_by-OverridesApart mine (select-OverridesApart _ db.price_overrides h))

  nightly_total-stay_price :
      (from to n : ℕ) (db : Db)
      → from + n ≤ to
      → OverridesApart db.price_overrides
      → nightly_total base (find_price_overrides tenant unit from to db) from n
        ≡ stay_price tenant unit base db.price_overrides from n
  unfolding nightly_total stay_price
  nightly_total-stay_price from to zero db l h = refl
  nightly_total-stay_price from to (suc n) db l h = omega (
    arith,
    nightly_total-stay_price from to n db (omega arith) h,
    find_price_overrides-night from to db (from + n) (omega arith) (omega arith) h,
  )

  pub quote-stay_price :
      (from n : ℕ) (db : Db)
      → OverridesApart db.price_overrides
      → quote_total_idr base from (from + n) (find_price_overrides tenant unit from (from + n) db)
        ≡ pos (stay_price tenant unit base db.price_overrides from n)
  quote-stay_price from n db h =
      quote_total_idr-nightly_total base from n
        (find_price_overrides tenant unit from (from + n) db)
        (find_price_overrides-PairwiseApart from (from + n) db h)
      ∙ ap pos (nightly_total-stay_price from (from + n) n db (omega arith) h)
