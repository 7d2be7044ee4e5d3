-- ===== src/Stay/Coalesce.antt =====
-- `coalesceRanges` (packages/shared/src/availability.ts): the nights that the result covers, its
-- shape, and that nothing but the covered nights decides it.
use sambung.Common.{
  ℕ, ◌≤◌, ◌<◌, ◌≡◌, refl, ap, ◌∙◌, Bool, ◌&&◌, ◌||◌, List, [], ◌∷◌, true, inl, inr, arith, ltb, leb,
  if◌then◌else◌, Bool-cases, All, any, non_empty,
}
use sambung.Stay.{Range, insert_by_from, sort_by_from, merge_from, merge_sorted, coalesce_ranges}

-- The night of day `d` is within `r`, half-open.
abbrev pub holds : Range → ℕ → Bool
holds r d = leb r.from d && ltb d r.to

abbrev pub covers : List Range → ℕ → Bool
covers rs d = any (λ r. holds r d) rs

abbrev pub NonEmpty : Range → Type 0
NonEmpty r = r.from < r.to

-- Every range after `last` starts strictly after it ends.
abbrev pub Gaps : Range → List Range → Type 0
Gaps last [] = Unit
Gaps last (r ∷ rs) = (last.to < r.from) × Gaps r rs

-- Non-empty ranges in order, with a free night between each and the next.
abbrev pub IsSeparated : List Range → Type 0
IsSeparated [] = Unit
IsSeparated (r ∷ rs) = All NonEmpty (r ∷ rs) × Gaps r rs

abbrev Sorted : ℕ → List Range → Type 0
Sorted low [] = Unit
Sorted low (r ∷ rs) = (low ≤ r.from) × Sorted r.from rs

Sorted-mono : {low high : ℕ} (rs : List Range) → low ≤ high → Sorted high rs → Sorted low rs
Sorted-mono [] h s = tt
Sorted-mono (r ∷ rs) h s = (omega arith, s.1)

insert_by_from-Sorted :
    (low : ℕ) (r : Range) (ss : List Range)
    → low ≤ r.from
    → Sorted low ss
    → Sorted low (insert_by_from r ss)
unfolding insert_by_from
insert_by_from-Sorted low r [] h s = (h, tt)
insert_by_from-Sorted low r (x ∷ ss) h s = elim (Bool-cases (leb r.from x.from)) [
  | inl e ↦ rw e (h, (ground arith, s.1))
  | inr e ↦ rw e (s.0, insert_by_from-Sorted x.from r ss (ground arith) s.1)
]

sort_by_from-Sorted : (rs : List Range) → Sorted 0 (sort_by_from rs)
unfolding sort_by_from
sort_by_from-Sorted [] = tt
sort_by_from-Sorted (r ∷ rs) =
    insert_by_from-Sorted 0 r (sort_by_from rs) (omega arith) (sort_by_from-Sorted rs)

covers-insert_by_from :
    (r : Range) (ss : List Range) (d : ℕ) → covers (insert_by_from r ss) d ≡ covers (r ∷ ss) d
unfolding insert_by_from
covers-insert_by_from r [] d = refl
covers-insert_by_from r (x ∷ ss) d = ground (arith, covers-insert_by_from r ss d)

covers-sort_by_from : (rs : List Range) (d : ℕ) → covers (sort_by_from rs) d ≡ covers rs d
unfolding sort_by_from
covers-sort_by_from [] d = refl
covers-sort_by_from (r ∷ rs) d =
    covers-insert_by_from r (sort_by_from rs) d
    ∙ ap (λ b. holds r d || b) (covers-sort_by_from rs d)

covers-merge_from :
    (last : Range) (rs : List Range) (d : ℕ)
    → Sorted last.from rs
    → covers (merge_from last rs) d ≡ covers (last ∷ rs) d
unfolding merge_from
covers-merge_from last [] d s = refl
covers-merge_from last (next ∷ rest) d s = ground (
  arith,
  covers-merge_from (record last { to = if ltb last.to next.to then next.to else last.to }) rest d
      (Sorted-mono rest s.0 s.1),
  covers-merge_from next rest d s.1,
)

covers-merge_sorted :
    (rs : List Range) (d : ℕ) → Sorted 0 rs → covers (merge_sorted rs) d ≡ covers rs d
unfolding merge_sorted
covers-merge_sorted [] d s = refl
covers-merge_sorted (r ∷ rs) d s = covers-merge_from r rs d s.1

-- Coalescing loses no night and adds none: the coalesced list covers a night exactly when the
-- given list does.
pub covers-coalesce_ranges : (rs : List Range) (d : ℕ) → covers (coalesce_ranges rs) d ≡ covers rs d
unfolding coalesce_ranges
covers-coalesce_ranges rs d =
    covers-merge_sorted (sort_by_from rs) d (sort_by_from-Sorted rs) ∙ covers-sort_by_from rs d

insert_by_from-NonEmpty :
    (r : Range) (ss : List Range)
    → NonEmpty r
    → All NonEmpty ss
    → All NonEmpty (insert_by_from r ss)
unfolding insert_by_from
insert_by_from-NonEmpty r [] h a = (h, tt)
insert_by_from-NonEmpty r (x ∷ ss) h a = elim (Bool-cases (leb r.from x.from)) [
  | inl e ↦ rw e (h, a)
  | inr e ↦ rw e (a.0, insert_by_from-NonEmpty r ss h a.1)
]

sort_by_from-NonEmpty : (rs : List Range) → All NonEmpty rs → All NonEmpty (sort_by_from rs)
unfolding sort_by_from
sort_by_from-NonEmpty [] a = tt
sort_by_from-NonEmpty (r ∷ rs) a =
    insert_by_from-NonEmpty r (sort_by_from rs) a.0 (sort_by_from-NonEmpty rs a.1)

-- The first merged range starts where `last` does.
record Merged (last : Range) (out : List Range) : Type 0 where
  head : Range
  rest : List Range
  is_cons : out ≡ head ∷ rest
  starts : head.from ≡ last.from
  separated : IsSeparated (head ∷ rest)

merge_from-Merged :
    (last : Range) (rs : List Range)
    → NonEmpty last
    → All NonEmpty rs
    → Merged last (merge_from last rs)
unfolding merge_from
merge_from-Merged last [] h a = record {
  head = last;
  rest = [];
  is_cons = refl;
  starts = refl;
  separated = ((h, tt), tt);
}
merge_from-Merged last (next ∷ rest) h a = elim (Bool-cases (leb next.from last.to)) [
  | inl e ↦ rw e (
      let longer =
        merge_from-Merged (record last { to = if ltb last.to next.to then next.to else last.to })
          rest (ground arith) a.1 in
      record {
        head = longer.head;
        rest = longer.rest;
        is_cons = longer.is_cons;
        starts = longer.starts;
        separated = longer.separated;
      })
  | inr e ↦ rw e (
      let later = merge_from-Merged next rest a.0 a.1 in
      record {
        head = last;
        rest = merge_from next rest;
        is_cons = refl;
        starts = refl;
        separated = rw later.is_cons ((h, later.separated.0), (ground arith, later.separated.1));
      })
]

IsSeparated-merge_sorted : (rs : List Range) → All NonEmpty rs → IsSeparated (merge_sorted rs)
unfolding merge_sorted
IsSeparated-merge_sorted [] a = tt
IsSeparated-merge_sorted (r ∷ rs) a =
    let m = merge_from-Merged r rs a.0 a.1 in rw m.is_cons m.separated

-- Of non-empty ranges the merged ones are non-empty, in order, and never touch: a free night lies
-- between each and the next, so two contiguous bookings leave no seam.
pub coalesce_ranges-IsSeparated :
    (rs : List Range) → All NonEmpty rs → IsSeparated (coalesce_ranges rs)
unfolding coalesce_ranges
coalesce_ranges-IsSeparated rs a =
    IsSeparated-merge_sorted (sort_by_from rs) (sort_by_from-NonEmpty rs a)

non_empty-merge_from : (last : Range) (rs : List Range) → non_empty (merge_from last rs) ≡ true
unfolding merge_from
non_empty-merge_from last [] = refl
non_empty-merge_from last (next ∷ rest) = ground (
  arith,
  non_empty-merge_from (record last { to = if ltb last.to next.to then next.to else last.to }) rest,
)

non_empty-merge_sorted : (rs : List Range) → non_empty (merge_sorted rs) ≡ non_empty rs
unfolding merge_sorted
non_empty-merge_sorted [] = refl
non_empty-merge_sorted (r ∷ rs) = non_empty-merge_from r rs

non_empty-sort_by_from : (rs : List Range) → non_empty (sort_by_from rs) ≡ non_empty rs
unfolding sort_by_from
non_empty-sort_by_from [] = refl
non_empty-sort_by_from (r ∷ rs) = inserted (sort_by_from rs)
  where
    inserted : (ss : List Range) → non_empty (insert_by_from r ss) ≡ true
    inserted [] = unfold insert_by_from in refl
    inserted (x ∷ ss) = unfold insert_by_from in ground arith

pub non_empty-coalesce_ranges : (rs : List Range) → non_empty (coalesce_ranges rs) ≡ non_empty rs
unfolding coalesce_ranges
non_empty-coalesce_ranges rs = non_empty-merge_sorted (sort_by_from rs) ∙ non_empty-sort_by_from rs
