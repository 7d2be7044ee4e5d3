-- ===== src/Stay/Pricing.antt =====
-- `quoteTotalIdr` (packages/shared/src/availability.ts) against the price of each night.
use sambung.Common.{
  ℕ, zero, suc, ◌+◌, ◌-◌, ◌*◌, ◌≤◌, min, max, ◌≡◌, refl, ap, Bool, ◌&&◌, true, List, [], ◌∷◌, inl,
  inr, arith, ltb, leb, if◌then◌else◌, Bool-cases, All,
}
use sambung.Common.Int.{
  ℤ, pos, pos_part, neg_part, ◌+ℤ◌, ◌-ℤ◌, ◌*ℤ◌, eq_of_parts, *ℤ_parts, int_laws,
}
use sambung.Stay.{PriceOverrideSpan, count_nights, add_override, add_overrides, quote_total_idr}

-- `o` prices the night of day `d`.
abbrev pub prices : PriceOverrideSpan → ℕ → Bool
prices o d = leb o.from d && ltb d o.to

-- The price of one night: that of the first override that covers it, else the base.
abbrev pub nightly_rate : ℕ → List PriceOverrideSpan → ℕ → ℕ
nightly_rate base [] d = base
nightly_rate base (o ∷ os) d = if prices o d then o.nightly_price_idr else nightly_rate base os d

-- The `n` nights from `from`, each at its own rate.
unfoldable pub nightly_total : ℕ → List PriceOverrideSpan → ℕ → ℕ → ℕ
nightly_total base os from zero = 0
nightly_total base os from (suc n) = nightly_total base os from n + nightly_rate base os (from + n)

-- `price_override_no_overlap`: no two overrides of a unit share a night.
abbrev pub Apart : PriceOverrideSpan → PriceOverrideSpan → Type 0
Apart o p = min o.to p.to ≤ max o.from p.from

abbrev pub PairwiseApart : List PriceOverrideSpan → Type 0
PairwiseApart [] = Unit
PairwiseApart (o ∷ os) = All (Apart o) os × PairwiseApart os

covered_nights : PriceOverrideSpan → ℕ → ℕ → ℕ
covered_nights o from zero = 0
covered_nights o from (suc n) = covered_nights o from n + (if prices o (from + n) then 1 else 0)

covered_nights-eq :
    (o : PriceOverrideSpan) (from n : ℕ)
    → covered_nights o from n ≡ min o.to (from + n) - max o.from from
unfolding covered_nights
covered_nights-eq o from zero = omega arith
covered_nights-eq o from (suc n) = ground (arith, covered_nights-eq o from n)

nightly_rate-Apart :
    (base : ℕ) (o : PriceOverrideSpan) (os : List PriceOverrideSpan) (d : ℕ)
    → All (Apart o) os
    → prices o d ≡ true
    → nightly_rate base os d ≡ base
nightly_rate-Apart base o [] d h p = refl
nightly_rate-Apart base o (q ∷ os) d h p = ground (arith, nightly_rate-Apart base o os d h.1 p)

nightly_total-cons :
    (base : ℕ) (o : PriceOverrideSpan) (os : List PriceOverrideSpan) (from n : ℕ)
    → All (Apart o) os
    → nightly_total base (o ∷ os) from n + covered_nights o from n * base
      ≡ nightly_total base os from n + covered_nights o from n * o.nightly_price_idr
unfolding nightly_total covered_nights
nightly_total-cons base o os from zero h = omega arith
nightly_total-cons base o os from (suc n) h = elim (Bool-cases (prices o (from + n))) [
  | inl e ↦ rw e (
      omega
        (arith, nightly_total-cons base o os from n h, nightly_rate-Apart base o os (from + n) h e))
  | inr e ↦ rw e (omega (arith, nightly_total-cons base o os from n h))
]

nightly_total-nil : (base from n : ℕ) → nightly_total base [] from n ≡ base * n
unfolding nightly_total
nightly_total-nil base from zero = omega arith
nightly_total-nil base from (suc n) = omega (arith, nightly_total-nil base from n)

-- The nights of `o` within the stay, as the loop counts them.
overlap_nights : PriceOverrideSpan → ℕ → ℕ → ℕ
overlap_nights o from to = min o.to to - max o.from from

add_override-eq :
    (base from to : ℕ) (total : ℤ) (o : PriceOverrideSpan)
    → add_override base from to total o ≡ (
        if ltb 0 (overlap_nights o from to)
        then total +ℤ (pos o.nightly_price_idr -ℤ pos base) *ℤ pos (overlap_nights o from to)
        else total)
unfolding add_override overlap_nights count_nights ◌-ℤ◌
add_override-eq base from to total o = ground arith

charge_parts :
    (base price k : ℕ) (total : ℤ)
    → pos_part (total +ℤ (pos price -ℤ pos base) *ℤ pos k) + neg_part total + k * base
      ≡ neg_part (total +ℤ (pos price -ℤ pos base) *ℤ pos k) + pos_part total + k * price
charge_parts base price k total =
    let x = pos price -ℤ pos base in
    let linear : pos_part x + base ≡ neg_part x + price = omega int_laws in
    omega (int_laws, ap (λ (t : ℕ). t * k) linear)

add_override_parts :
    (base from to : ℕ) (total : ℤ) (o : PriceOverrideSpan)
    → pos_part (add_override base from to total o)
        + neg_part total
        + overlap_nights o from to * base
      ≡ neg_part (add_override base from to total o)
        + pos_part total
        + overlap_nights o from to * o.nightly_price_idr
add_override_parts base from to total o =
    rw add_override-eq (elim (Bool-cases (ltb 0 (overlap_nights o from to))) [
      | inl e ↦ rw e (charge_parts base o.nightly_price_idr (overlap_nights o from to) total)
      | inr e ↦
          let none_left : overlap_nights o from to ≡ 0 = ground arith in
          rw (e, none_left) (omega arith)
    ])

add_overrides_parts :
    (base from n : ℕ) (total : ℤ) (os : List PriceOverrideSpan)
    → PairwiseApart os
    → pos_part (add_overrides base from (from + n) total os) + neg_part total + base * n
      ≡ neg_part (add_overrides base from (from + n) total os)
        + pos_part total
        + nightly_total base os from n
unfolding add_overrides
add_overrides_parts base from n total [] h = omega (arith, nightly_total-nil base from n)
add_overrides_parts base from n total (o ∷ os) (apart, h) = omega (
  arith,
  add_overrides_parts base from n (add_override base from (from + n) total o) os h,
  add_override_parts base from (from + n) total o,
  nightly_total-cons base o os from n apart,
  nights_agree,
  ap (λ (t : ℕ). t * base) nights_agree,
  ap (λ (t : ℕ). t * o.nightly_price_idr) nights_agree,
)
  where
    nights_agree : overlap_nights o from (from + n) ≡ covered_nights o from n
    nights_agree = unfold overlap_nights in omega (arith, covered_nights-eq o from n)

-- For overrides that share no night, the arithmetic total of a stay of any number of nights is the
-- sum of its nights, each at the price of the override that covers it and else at the base price.
pub quote_total_idr-nightly_total :
    (base from n : ℕ) (os : List PriceOverrideSpan)
    → PairwiseApart os
    → quote_total_idr base from (from + n) os ≡ pos (nightly_total base os from n)
unfolding quote_total_idr
quote_total_idr-nightly_total base from n os h = eq_of_parts _ _ (
    omega (
      int_laws,
      add_overrides_parts base from n (pos base *ℤ count_nights from (from + n)) os h,
      ap (λ z. pos_part (pos base *ℤ z)) nights,
      ap (λ z. neg_part (pos base *ℤ z)) nights,
      *ℤ_parts (pos base) (pos n),
    ))
  where
    nights : count_nights from (from + n) ≡ pos n
    nights = unfold count_nights ◌-ℤ◌ in ground arith
