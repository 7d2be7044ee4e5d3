-- ===== src/Db/Bookings.antt =====
-- The constraints on the booking table (packages/db/src/schema.ts, and the hand-written
-- `booking_no_overlap` of packages/db/drizzle/0000_init.sql), and the statements that they guard.
use sambung.Common.{
  ℕ, String, min, max, Bool, true, false, not, ◌&&◌, Option, none, some, List, ◌∷◌, map, ltb, ◌==◌,
  str_eq, if◌then◌else◌, any, find,
}
use sambung.Db.Schema.{Booking, occupying, UnitRow, Db, ChannelConnection}
use sambung.Db.Tx.{
  Constraint, booking_stay_nonempty, booking_guest_count_positive, booking_pkey,
  booking_external_uid_uniq, booking_no_overlap, booking_unit_tenant_fk, violates, ok, err, Tx,
  booking_channel_connection_fk,
}

-- `daterange(a, b, '[)') && daterange(c, d, '[)')`
unfoldable pub ranges_overlap : ℕ → ℕ → ℕ → ℕ → Bool
ranges_overlap a b c d = ltb (max a c) (min b d)

-- The two rows may not stand beside one another.
unfoldable pub clash : Booking → Booking → Bool
unfolding ranges_overlap occupying
clash b c =
    occupying b.status
    && occupying c.status
    && b.unit_id == c.unit_id
    && ranges_overlap b.check_in b.check_out c.check_in c.check_out

abbrev pub clashes : Booking → List Booking → Bool
clashes b bs = any (clash b) bs

abbrev pub some_eq : Option ℕ → Option ℕ → Bool
some_eq (some a) (some b) = a == b
some_eq _ _ = false

abbrev pub some_str_eq : Option String → Option String → Bool
some_str_eq (some a) (some b) = str_eq a b
some_str_eq _ _ = false

-- The arbiter of the partial unique index on (channel_connection_id, external_uid).
unfoldable pub same_import : Booking → Booking → Bool
same_import b c =
    some_eq b.channel_connection_id c.channel_connection_id
    && some_str_eq b.external_uid c.external_uid

abbrev pub guest_count_ok : Option ℕ → Bool
guest_count_ok none = true
guest_count_ok (some n) = ltb 0 n

-- `unit.id` is the primary key.
abbrev pub unit_by_id : List UnitRow → ℕ → Option UnitRow
unit_by_id units id = find (λ u. u.id == id) units

abbrev pub of_tenant : Option UnitRow → ℕ → Bool
of_tenant none tenant = false
of_tenant (some u) tenant = u.tenant_id == tenant

unfoldable pub unit_fk : List UnitRow → Booking → Bool
unit_fk units b = of_tenant (unit_by_id units b.unit_id) b.tenant_id

-- An imported row names a connection that is there.
abbrev pub connection_fk : List ChannelConnection → Option ℕ → Bool
connection_fk connections none = true
connection_fk connections (some id) = any (λ c. c.id == id) connections

-- A price is a natural number, so `booking_total_price_nonneg` refuses none.
unfoldable pub row_check : Booking → Option Constraint
row_check b =
    if not (ltb b.check_in b.check_out)
    then some booking_stay_nonempty
    else if not (guest_count_ok b.guest_count)
    then some booking_guest_count_positive
    else none

-- What refuses a new row: the CHECKs, the unique indexes, the exclusion constraint, the foreign keys.
unfoldable pub insert_check : Db → Booking → Option Constraint
unfolding row_check
insert_check db b = elim (row_check b) [
  | some c ↦ some c
  | none ↦
      if any (λ c. c.id == b.id) db.bookings
      then some booking_pkey
      else if any (same_import b) db.bookings
      then some booking_external_uid_uniq
      else if clashes b db.bookings
      then some booking_no_overlap
      else if not (unit_fk db.units b)
      then some booking_unit_tenant_fk
      else if not (connection_fk db.connections b.channel_connection_id)
      then some booking_channel_connection_fk
      else none
]

-- `INSERT INTO booking … RETURNING *`
unfoldable pub insert_booking : Booking → Tx Booking
unfolding insert_check
insert_booking b db = elim (insert_check db b) [
  | some c ↦ err (violates c)
  | none ↦ ok (b, record db { bookings = b ∷ db.bookings })
]

-- `UPDATE booking SET … WHERE p`, for updates that no constraint can refuse.
abbrev pub update_where {ℓ} : {A : Type ℓ} → (A → Bool) → (A → A) → List A → List A
update_where p f xs = map (λ x. if p x then f x else x) xs
