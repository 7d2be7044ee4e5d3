-- ===== src/Stay/Canonical.antt =====
-- `coalesceRanges` (packages/shared/src/availability.ts) depends on the covered nights alone.
use sambung.Common.{
  ℕ, ◌≤◌, ◌<◌, ◌≡◌, refl, sym, ◌∙◌, ◌&&◌, true, false, List, [], ◌∷◌, inl, inr, arith, ltb, ltb→lt,
  Bool-cases, All,
}
use sambung.Stay.{Range, coalesce_ranges}
use sambung.Stay.Coalesce.{
  covers, NonEmpty, Gaps, IsSeparated, covers-coalesce_ranges, coalesce_ranges-IsSeparated,
}

-- Up to the end of `last` nothing that follows it covers a night.
covers-Gaps :
    (last : Range) (rs : List Range) (d : ℕ)
    → All NonEmpty rs
    → Gaps last rs
    → d ≤ last.to
    → covers rs d ≡ false
covers-Gaps last [] d a g h = refl
covers-Gaps last (r ∷ rs) d a g h = ground (arith, covers-Gaps r rs d a.1 g.1 (omega arith))

-- A separated list, taken apart.
module _ (x : Range) (xs : List Range) (s : IsSeparated (x ∷ xs)) where
  covers-start : covers (x ∷ xs) x.from ≡ true
  covers-start = ground (arith, s.0.0)

  covers-before : (d : ℕ) → d < x.from → covers (x ∷ xs) d ≡ false
  covers-before d h = ground (arith, s.0.0, covers-Gaps x xs d s.0.1 s.1 (omega (arith, s.0.0)))

  covers-end : covers (x ∷ xs) x.to ≡ false
  covers-end = ground (arith, covers-Gaps x xs x.to s.0.1 s.1 (omega arith))

  covers-tail : (d : ℕ) → covers xs d ≡ (ltb x.to d && covers (x ∷ xs) d)
  covers-tail d = elim (Bool-cases (ltb x.to d)) [
    | inl e ↦ rw e (ground (arith, s.0.0))
    | inr e ↦ rw e (covers-Gaps x xs d s.0.1 s.1 (ground arith))
  ]

IsSeparated-tail : (x : Range) (xs : List Range) → IsSeparated (x ∷ xs) → IsSeparated xs
IsSeparated-tail x [] s = tt
IsSeparated-tail x (y ∷ xs) s = (s.0.1, s.1.1)

-- Two separated lists that cover the same nights start with one range.
module _ (x y : Range) (xs ys : List Range) (s : IsSeparated (x ∷ xs)) (t : IsSeparated (y ∷ ys))
    (same : (d : ℕ) → covers (x ∷ xs) d ≡ covers (y ∷ ys) d) where
  start-le : x.from ≤ y.from
  start-le = elim (Bool-cases (ltb y.from x.from)) [
    | inl e ↦
        absurd (cc (same y.from, covers-start y ys t, covers-before x xs s y.from (ltb→lt _ _ e)))
    | inr e ↦ ground arith
  ]

  end-le : x.from ≡ y.from → y.to ≤ x.to
  end-le e = elim (Bool-cases (ltb x.to y.to)) [
    | inl lt ↦ absurd (ground (arith, same x.to, covers-end x xs s, s.0.0))
    | inr e ↦ ground arith
  ]

IsSeparated-unique :
    (xs ys : List Range)
    → IsSeparated xs
    → IsSeparated ys
    → ((d : ℕ) → covers xs d ≡ covers ys d)
    → xs ≡ ys
IsSeparated-unique [] [] s t same = refl
IsSeparated-unique [] (y ∷ ys) s t same = absurd (cc (same y.from, covers-start y ys t))
IsSeparated-unique (x ∷ xs) [] s t same = absurd (cc (same x.from, covers-start x xs s))
IsSeparated-unique (x ∷ xs) (y ∷ ys) s t same =
    let from_eq : x.from ≡ y.from =
      omega (arith, start-le x y xs ys s t same, start-le y x ys xs t s (λ d. sym (same d))) in
    let to_eq : x.to ≡ y.to = omega (
      arith,
      end-le x y xs ys s t same from_eq,
      end-le y x ys xs t s (λ d. sym (same d)) (sym from_eq),
    ) in
    let tails : (d : ℕ) → covers xs d ≡ covers ys d =
      λ d. covers-tail x xs s d ∙ (rw (same d, to_eq) (sym (covers-tail y ys t d))) in
    let heads : x ≡ y = λ i. record { from = from_eq i; to = to_eq i } in
    cc (heads, IsSeparated-unique xs ys (IsSeparated-tail x xs s) (IsSeparated-tail y ys t) tails)

-- Two lists of ranges, none of them empty, that cover the same nights coalesce to the same list,
-- whatever their order and cuts.
pub coalesce_ranges_canonical :
    (rs ss : List Range)
    → All NonEmpty rs
    → All NonEmpty ss
    → ((d : ℕ) → covers rs d ≡ covers ss d)
    → coalesce_ranges rs ≡ coalesce_ranges ss
coalesce_ranges_canonical rs ss a b same =
    IsSeparated-unique (coalesce_ranges rs) (coalesce_ranges ss) (coalesce_ranges-IsSeparated rs a)
      (coalesce_ranges-IsSeparated ss b)
      λ d. covers-coalesce_ranges rs d ∙ same d ∙ sym (covers-coalesce_ranges ss d)
