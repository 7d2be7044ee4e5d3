-- ===== src/Db/Overlap.antt =====
-- What `booking_no_overlap` and the foreign key (packages/db) keep true of the booking table.
use sambung.Common.{
  [], none, ℕ, ◌+◌, ◌≤◌, ◌≡◌, refl, Bool, true, false, ◌&&◌, List, ◌∷◌, inl, inr, arith, leb, ltb,
  ◌==◌, if◌then◌else◌, Bool-cases, All, any, map,
}
use sambung.Db.Schema.{Booking, occupying, UnitRow, Db}
use sambung.Db.Tx.{booking_no_overlap, violates, err, ok}
use sambung.Db.Bookings.{
  clash, clashes, insert_booking, same_import, guest_count_ok, unit_fk, connection_fk,
}

abbrev pub NoOverlap : List Booking → Type 0
NoOverlap [] = Unit
NoOverlap (b ∷ bs) = (clashes b bs ≡ false) × NoOverlap bs

pub clash_comm : (b c : Booking) → clash b c ≡ clash c b
unfolding clash
clash_comm b c = ground arith

-- The row is occupied no wider than before: the same unit and nights, and a status that occupies
-- only if it did.
pub record Narrows (b c : Booking) : Type 0 where
  pub id_same : c.id ≡ b.id
  pub unit_same : c.unit_id ≡ b.unit_id
  pub check_in_same : c.check_in ≡ b.check_in
  pub check_out_same : c.check_out ≡ b.check_out
  pub tenant_same : c.tenant_id ≡ b.tenant_id
  pub status_narrows : occupying c.status ≡ true → occupying b.status ≡ true

pub Narrows-refl : (b : Booking) → Narrows b b
Narrows-refl b = record {
  id_same = refl;
  unit_same = refl;
  check_in_same = refl;
  check_out_same = refl;
  tenant_same = refl;
  status_narrows = λ e. e;
}

clash-Narrows :
    (b c b' c' : Booking) → Narrows b b' → Narrows c c' → clash b c ≡ false → clash b' c' ≡ false
unfolding clash
clash-Narrows b c b' c' n m h =
    rw
      (
        n.unit_same, m.unit_same, n.check_in_same, n.check_out_same, m.check_in_same,
        m.check_out_same,
      )
      (elim (Bool-cases (occupying b'.status)) [
        | inr e ↦ rw e
        | inl e ↦ elim (Bool-cases (occupying c'.status)) [
          | inr f ↦ rw (e, f)
          | inl f ↦ rw (e, f) (rw (n.status_narrows e, m.status_narrows f) at h)
        ]
      ])

module _ (f : Booking → Booking) (narrow : (b : Booking) → Narrows b (f b)) where
  clashes-map :
      (b : Booking) (bs : List Booking) → clashes b bs ≡ false → clashes (f b) (map f bs) ≡ false
  clashes-map b [] h = refl
  clashes-map b (c ∷ bs) h =
      ground (arith, clash-Narrows b c (f b) (f c) (narrow b) (narrow c), clashes-map b bs)

  -- An update that narrows each row keeps the table free of overlaps.
  pub NoOverlap-map : (bs : List Booking) → NoOverlap bs → NoOverlap (map f bs)
  NoOverlap-map [] h = tt
  NoOverlap-map (b ∷ bs) h = (clashes-map b bs h.0, NoOverlap-map bs h.1)

-- The foreign key (unit_id, tenant_id) of every row.
abbrev pub OwnUnits : List UnitRow → List Booking → Type 0
OwnUnits units bs = All (λ b. unit_fk units b ≡ true) bs

-- The primary key.
abbrev pub has_id : ℕ → List Booking → Bool
has_id id bs = any (λ c. c.id == id) bs

abbrev pub UniqueIds : List Booking → Type 0
UniqueIds [] = Unit
UniqueIds (b ∷ bs) = (has_id b.id bs ≡ false) × UniqueIds bs

has_id-map :
    (f : Booking → Booking)
    → ((b : Booking) → Narrows b (f b))
    → (id : ℕ) (bs : List Booking) → has_id id (map f bs) ≡ has_id id bs
has_id-map f narrow id [] = refl
has_id-map f narrow id (b ∷ bs) = rw ((narrow b).id_same, has_id-map f narrow id bs)

UniqueIds-map :
    (f : Booking → Booking)
    → ((b : Booking) → Narrows b (f b))
    → (bs : List Booking) → UniqueIds bs
    → UniqueIds (map f bs)
UniqueIds-map f narrow [] h = tt
UniqueIds-map f narrow (b ∷ bs) h =
    (rw ((narrow b).id_same, has_id-map f narrow b.id bs) h.0, UniqueIds-map f narrow bs h.1)

pub record IsConsistent (db : Db) : Type 0 where
  pub unique_ids : UniqueIds db.bookings
  pub no_overlap : NoOverlap db.bookings
  pub own_units : OwnUnits db.units db.bookings

unit_fk-Narrows :
    (units : List UnitRow) (b c : Booking)
    → Narrows b c
    → unit_fk units b ≡ true
    → unit_fk units c ≡ true
unfolding unit_fk
unit_fk-Narrows units b c n h = rw (n.unit_same, n.tenant_same) h

pub OwnUnits-map :
    (units : List UnitRow) (f : Booking → Booking)
    → ((b : Booking) → Narrows b (f b))
    → (bs : List Booking) → OwnUnits units bs
    → OwnUnits units (map f bs)
OwnUnits-map units f narrow [] h = tt
OwnUnits-map units f narrow (b ∷ bs) h =
    (unit_fk-Narrows units b (f b) (narrow b) h.0, OwnUnits-map units f narrow bs h.1)

pub update-IsConsistent :
    (f : Booking → Booking)
    → ((b : Booking) → Narrows b (f b))
    → (db : Db) → IsConsistent db
    → IsConsistent (record db { bookings = map f db.bookings })
update-IsConsistent f narrow db h = record {
  unique_ids = UniqueIds-map f narrow db.bookings h.unique_ids;
  no_overlap = NoOverlap-map f narrow db.bookings h.no_overlap;
  own_units = OwnUnits-map db.units f narrow db.bookings h.own_units;
}

-- What an accepted INSERT tells.
pub record Inserted (b : Booking) (db : Db) (r : Booking) (after : Db) : Type 0 where
  pub returned : r ≡ b
  pub added : after ≡ record db { bookings = b ∷ db.bookings }
  pub free : clashes b db.bookings ≡ false
  pub fresh : has_id b.id db.bookings ≡ false
  pub own_unit : unit_fk db.units b ≡ true
  pub non_empty : ltb b.check_in b.check_out ≡ true

pub insert_booking-Inserted :
    (b : Booking) (db : Db) {r : Booking} {after : Db}
    → insert_booking b db ≡ ok (r, after)
    → Inserted b db r after
unfolding insert_booking
insert_booking-Inserted b db e = ground arith

-- A row that passes every constraint is taken.
pub insert_booking_takes :
    (b : Booking) (db : Db)
    → ltb b.check_in b.check_out ≡ true
    → guest_count_ok b.guest_count ≡ true
    → any (λ c. c.id == b.id) db.bookings ≡ false
    → any (same_import b) db.bookings ≡ false
    → clashes b db.bookings ≡ false
    → unit_fk db.units b ≡ true
    → connection_fk db.connections b.channel_connection_id ≡ true
    → insert_booking b db ≡ ok (b, record db { bookings = b ∷ db.bookings })
unfolding insert_booking
insert_booking_takes b db h1 h2 h3 h4 h5 h6 h7 = ground arith

pub not_imported :
    (b : Booking) (bs : List Booking)
    → b.channel_connection_id ≡ none
    → any (same_import b) bs ≡ false
unfolding same_import
not_imported b [] e = refl
not_imported b (c ∷ bs) e = ground (arith, not_imported b bs e)

-- A row that is new, whose nights are held: the exclusion constraint refuses it.
pub insert_booking-violates :
    (b : Booking) (db : Db)
    → ltb b.check_in b.check_out ≡ true
    → guest_count_ok b.guest_count ≡ true
    → any (λ c. c.id == b.id) db.bookings ≡ false
    → any (same_import b) db.bookings ≡ false
    → clashes b db.bookings ≡ true
    → insert_booking b db ≡ err (violates booking_no_overlap)
unfolding insert_booking
insert_booking-violates b db h1 h2 h3 h4 h5 = ground arith

pub Inserted-IsConsistent :
    {b : Booking} {db : Db} {r : Booking} {after : Db}
    → Inserted b db r after
    → IsConsistent db
    → IsConsistent after
Inserted-IsConsistent i h = rw i.added (record {
  unique_ids = (i.fresh, h.unique_ids);
  no_overlap = (i.free, h.no_overlap);
  own_units = (i.own_unit, h.own_units);
})

-- The rows that hold the night of day `d` in the unit.
abbrev pub occupies : ℕ → ℕ → Booking → Bool
occupies unit d b = occupying b.status && b.unit_id == unit && leb b.check_in d && ltb d b.check_out

pub occupants : ℕ → ℕ → List Booking → ℕ
occupants unit d [] = 0
occupants unit d (b ∷ bs) = (if occupies unit d b then 1 else 0) + occupants unit d bs

occupants-clashes :
    (unit d : ℕ) (b : Booking) (bs : List Booking)
    → occupies unit d b ≡ true
    → clashes b bs ≡ false
    → occupants unit d bs ≡ 0
unfolding occupants clash
occupants-clashes unit d b [] o h = refl
occupants-clashes unit d b (c ∷ bs) o h = ground (arith, occupants-clashes unit d b bs o)

-- Where no two rows clash, no night of any unit is held twice.
pub NoOverlap-occupants : (unit d : ℕ) (bs : List Booking) → NoOverlap bs → occupants unit d bs ≤ 1
unfolding occupants
NoOverlap-occupants unit d [] h = omega arith
NoOverlap-occupants unit d (b ∷ bs) h =
    ground (arith, occupants-clashes unit d b bs, NoOverlap-occupants unit d bs h.1)
