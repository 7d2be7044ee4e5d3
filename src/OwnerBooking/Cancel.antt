-- ===== src/OwnerBooking/Cancel.antt =====
-- The decision of `cancel` (apps/api/src/bookings/bookings.service.ts) over the guarded UPDATE of
-- `cancelById` (apps/api/src/bookings/bookings.repository.ts).
use sambung.Common.{
  ◌∙◌, inr, ==_iff, inl, Bool-cases, sym, ℕ, ◌≡◌, refl, Bool, true, false, ◌&&◌, Option, none, some,
  List, [], ◌∷◌, arith, ◌==◌, if◌then◌else◌, find, any,
}
use sambung.Db.Schema.{BookingStatus, occupying, Booking, Db}
use sambung.Db.Tx.{Error, booking_not_cancellable, Result, ok, err}
use sambung.Db.Bookings.{update_where}
use sambung.Db.Overlap.{UniqueIds, has_id}
use sambung.Booking.{set_status}
use sambung.OwnerBooking.{
  existing_outcome, frame_cancel, is_cancellable, has_paid_payment, Refund, nothing, manual, cancel,
}

-- The tenant's booking of that id.
abbrev pub owned : ℕ → ℕ → Booking → Bool
owned tenant id b = b.id == id && b.tenant_id == tenant

abbrev pub is_active : Option Booking → Bool
is_active none = false
is_active (some b) = occupying b.status

abbrev pub freed : ℕ → List Booking → List Booking
freed id bs = update_where (λ b. b.id == id) (set_status BookingStatus.cancelled) bs

-- What the owner is told, and the tables after.
abbrev pub cancel_result : ℕ → Db → Option Booking → Result (Refund × Db)
cancel_result id db none = err Error.not_found
cancel_result id db (some b) =
    if occupying b.status
    then ok (
      if has_paid_payment id db then manual else nothing,
      record db { bookings = freed id db.bookings },
    )
    else err (booking_not_cancellable b.status)

same_id :
    (id : ℕ) (b : Booking) (bs : List Booking)
    → b.id == id ≡ true
    → has_id b.id bs ≡ false
    → has_id id bs ≡ false
same_id id b bs y h = rw (sym ((==_iff b.id id).0 y)) h

absent-any :
    (tenant id : ℕ) (bs : List Booking)
    → has_id id bs ≡ false
    → any (is_cancellable tenant id) bs ≡ false
unfolding is_cancellable
absent-any tenant id [] h = refl
absent-any tenant id (b ∷ bs) h = ground (arith, absent-any tenant id bs)

absent-update :
    (tenant id : ℕ) (bs : List Booking)
    → has_id id bs ≡ false
    → update_where (is_cancellable tenant id) (set_status BookingStatus.cancelled) bs ≡ freed id bs
unfolding is_cancellable
absent-update tenant id [] h = refl
absent-update tenant id (b ∷ bs) h = ground (arith, absent-update tenant id bs)

any-is_active :
    (tenant id : ℕ) (bs : List Booking)
    → UniqueIds bs
    → any (is_cancellable tenant id) bs ≡ is_active (find (owned tenant id) bs)
unfolding is_cancellable
any-is_active tenant id [] h = refl
any-is_active tenant id (b ∷ bs) h = elim (Bool-cases (b.id == id)) [
  | inl y ↦
      ground
        (arith, absent-any tenant id bs (same_id id b bs y h.0), any-is_active tenant id bs h.1)
  | inr n ↦ ground (arith, any-is_active tenant id bs h.1)
]

update-freed :
    (tenant id : ℕ) (bs : List Booking)
    → UniqueIds bs
    → is_active (find (owned tenant id) bs) ≡ true
    → update_where (is_cancellable tenant id) (set_status BookingStatus.cancelled) bs ≡ freed id bs
unfolding is_cancellable
update-freed tenant id [] h e = refl
update-freed tenant id (b ∷ bs) h e = elim (Bool-cases (b.id == id)) [
  | inl y ↦ ground (
    arith,
    absent-update tenant id bs (same_id id b bs y h.0),
    absent-any tenant id bs (same_id id b bs y h.0),
    any-is_active tenant id bs h.1,
  )
  | inr n ↦ ground (arith, update-freed tenant id bs h.1)
]

no_update :
    (p : Booking → Bool) (f : Booking → Booking) (bs : List Booking)
    → any p bs ≡ false
    → update_where p f bs ≡ bs
no_update p f [] h = refl
no_update p f (b ∷ bs) h = ground (arith, no_update p f bs)

cancel-missed :
    (tenant id : ℕ) (db : Db)
    → any (is_cancellable tenant id) db.bookings ≡ false
    → cancel tenant id db
      ≡ frame_cancel id (existing_outcome (find (owned tenant id) db.bookings)) db
unfolding cancel
cancel-missed tenant id db h =
    rw (h, no_update (is_cancellable tenant id) (set_status BookingStatus.cancelled) db.bookings h)

cancel-updated :
    (tenant id : ℕ) (db : Db)
    → any (is_cancellable tenant id) db.bookings ≡ true
    → cancel tenant id db
      ≡ ok (
        if has_paid_payment id db then manual else nothing,
        record db {
          bookings =
              update_where
                (is_cancellable tenant id)
                (set_status BookingStatus.cancelled)
                db.bookings;
        },
      )
unfolding cancel frame_cancel has_paid_payment
cancel-updated tenant id db h = rw h

missed :
    (id : ℕ) (db : Db) (o : Option Booking)
    → is_active o ≡ false
    → frame_cancel id (existing_outcome o) db ≡ cancel_result id db o
unfolding frame_cancel
missed id db none h = refl
missed id db (some b) h = rw h

-- Where ids are unique, a cancel answers 404 when the tenant has no booking of that id, the 409
-- with the booking's status when it is no longer active, and else cancels that booking alone and
-- asks for a manual refund exactly when a payment of it is paid.
pub cancel_decides :
    (tenant id : ℕ) (db : Db)
    → UniqueIds db.bookings
    → cancel tenant id db ≡ cancel_result id db (find (owned tenant id) db.bookings)
cancel_decides tenant id db h = elim (Bool-cases (is_active (find (owned tenant id) db.bookings))) [
  | inl y ↦
      cancel-updated tenant id db (any-is_active tenant id db.bookings h ∙ y)
      ∙ rw (update-freed tenant id db.bookings h y) (hit (find (owned tenant id) db.bookings) y)
  | inr n ↦
      cancel-missed tenant id db (any-is_active tenant id db.bookings h ∙ n)
      ∙ missed id db (find (owned tenant id) db.bookings) n
]
  where
    hit :
        (o : Option Booking)
        → is_active o ≡ true
        → ok (
          if has_paid_payment id db then manual else nothing,
          record db { bookings = freed id db.bookings },
        )
          ≡ cancel_result id db o
    hit none y = ground arith
    hit (some b) y = rw y
