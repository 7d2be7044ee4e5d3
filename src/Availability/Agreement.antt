-- ===== src/Availability/Agreement.antt =====
-- The quote (apps/api/src/bookings/availability.service.ts) and the `booking_no_overlap` constraint
-- share one definition of a free stay, and the blocked ranges are the nights that are held.
use sambung.Common.{
  ℕ, ◌≡◌, refl, ◌∙◌, Bool, true, false, ◌&&◌, Option, none, some, List, [], ◌∷◌, ◌==◌, inl, inr,
  arith, Bool-cases, select, order_by, any, any-order_by, any-select, any-map, any-agree, All,
  non_empty, non_empty-any,
}
use sambung.Stay.{Range, coalesce_ranges}
use sambung.Stay.Coalesce.{holds, covers, covers-coalesce_ranges, non_empty-coalesce_ranges}
use sambung.Db.Schema.{Booking, occupying, UnitRow, Db}
use sambung.Db.Bookings.{clash, clashes, unit_by_id, of_tenant, unit_fk}
use sambung.Db.Overlap.{OwnUnits, occupies}
use sambung.Availability.{blocks, clip, find_blocked_ranges}

same_tenant :
    (units : List UnitRow) (b c : Booking)
    → unit_fk units b ≡ true
    → unit_fk units c ≡ true
    → b.unit_id ≡ c.unit_id
    → b.tenant_id ≡ c.tenant_id
unfolding unit_fk
same_tenant units b c h k e =
    one_owner (unit_by_id units b.unit_id) b.tenant_id c.tenant_id h (rw (← e) at k)
  where
    one_owner : (o : Option UnitRow) (s t : ℕ) → of_tenant o s ≡ true → of_tenant o t ≡ true → s ≡ t
    one_owner none s t h k = cc
    one_owner (some u) s t h k = ground arith

module _ (units : List UnitRow) (b : Booking) (own : unit_fk units b ≡ true) where
  blocks-clash :
      (c : Booking)
      → unit_fk units c ≡ true
      → occupying b.status ≡ true
      → blocks b.tenant_id b.unit_id b.check_in b.check_out c ≡ clash b c
  unfolding blocks clash
  blocks-clash c h o = elim (Bool-cases (b.unit_id == c.unit_id)) [
    | inl e ↦ ground (arith, same_tenant units b c own h (ground arith))
    | inr e ↦ ground arith
  ]

  -- A night of the window that `c` holds is a night that its clipped range holds.
  blocks-holds :
      (from to d : ℕ) (c : Booking)
      → unit_fk units c ≡ true
      → (blocks b.tenant_id b.unit_id from to c && holds (clip from to c) d)
        ≡ (holds (record { from = from; to = to }) d && occupies b.unit_id d c)
  unfolding blocks
  blocks-holds from to d c h = elim (Bool-cases (b.unit_id == c.unit_id)) [
    | inl e ↦ ground (arith, same_tenant units b c own h (ground arith))
    | inr e ↦ ground arith
  ]

All-from :
    {A : Type 0} {P Q : A → Type 0} (xs : List A) → ((x : A) → P x → Q x) → All P xs → All Q xs
All-from [] f h = tt
All-from (x ∷ xs) f h = (f x h.0, All-from xs f h.1)

blocked-any :
    (tenant unit from to : ℕ) (db : Db) (p : Range → Bool)
    → any p (find_blocked_ranges tenant unit from to db)
      ≡ any (λ c. blocks tenant unit from to c && p (clip from to c)) db.bookings
unfolding find_blocked_ranges
blocked-any tenant unit from to db p =
    any-map (clip from to) p
      (order_by (λ c. c.check_in) (select (blocks tenant unit from to) db.bookings))
    ∙ any-order_by (λ c. c.check_in) (λ c. p (clip from to c))
        (select (blocks tenant unit from to) db.bookings)
    ∙ any-select (blocks tenant unit from to) (λ c. p (clip from to c)) db.bookings

-- Where every booking row has its unit's tenant, the quote's `overlap` test of a stay says what
-- `booking_no_overlap` says of an occupying row with the same unit and dates.
pub blocked-clashes :
    (db : Db) (b : Booking)
    → OwnUnits db.units db.bookings
    → unit_fk db.units b ≡ true
    → occupying b.status ≡ true
    → non_empty
        (coalesce_ranges (find_blocked_ranges b.tenant_id b.unit_id b.check_in b.check_out db))
      ≡ clashes b db.bookings
blocked-clashes db b rows own o =
    non_empty-coalesce_ranges (find_blocked_ranges b.tenant_id b.unit_id b.check_in b.check_out db)
    ∙ non_empty-any (find_blocked_ranges b.tenant_id b.unit_id b.check_in b.check_out db)
    ∙ blocked-any b.tenant_id b.unit_id b.check_in b.check_out db (λ r. true)
    ∙ any-agree (λ c. blocks b.tenant_id b.unit_id b.check_in b.check_out c && true) (clash b)
        db.bookings
        (All-from db.bookings
          (λ c h.
            drop_true (blocks b.tenant_id b.unit_id b.check_in b.check_out c)
            ∙ blocks-clash db.units b own c h o)
          rows)
  where
    drop_true : (x : Bool) → (x && true) ≡ x
    drop_true true = refl
    drop_true false = refl

any_and :
    (x : Bool) (p : Booking → Bool) (bs : List Booking) → any (λ c. x && p c) bs ≡ (x && any p bs)
any_and x p [] = ground arith
any_and x p (c ∷ bs) = ground (arith, any_and x p bs)

-- Where every booking row has its unit's tenant, the blocked ranges of a window cover a night
-- exactly when it is in the window and some occupying booking of the unit holds it.
pub blocked_ranges-occupies :
    (db : Db) (b : Booking) (from to d : ℕ)
    → OwnUnits db.units db.bookings
    → unit_fk db.units b ≡ true
    → covers (coalesce_ranges (find_blocked_ranges b.tenant_id b.unit_id from to db)) d
      ≡ (holds (record { from = from; to = to }) d && any (occupies b.unit_id d) db.bookings)
blocked_ranges-occupies db b from to d rows own =
    covers-coalesce_ranges (find_blocked_ranges b.tenant_id b.unit_id from to db) d
    ∙ blocked-any b.tenant_id b.unit_id from to db (λ r. holds r d)
    ∙ any-agree (λ c. blocks b.tenant_id b.unit_id from to c && holds (clip from to c) d)
        (λ c. holds (record { from = from; to = to }) d && occupies b.unit_id d c) db.bookings
        (All-from db.bookings (λ c h. blocks-holds db.units b own from to d c h) rows)
    ∙ any_and (holds (record { from = from; to = to }) d) (occupies b.unit_id d) db.bookings
