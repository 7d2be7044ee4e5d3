-- ===== src/Payments/Decided.antt =====
-- No write of bookings or payments (apps/api/src/bookings, apps/api/src/payments) makes a booking
-- pending_payment again.
use sambung.Common.{
  option_map, find-map, ℕ, ◌≡◌, refl, sym, inl, inr, Bool, true, false, not, Option, none, some,
  List, [], ◌∷◌, ◌==◌, if◌then◌else◌, arith, Bool-cases, ==_iff,
}
use sambung.Db.Tx.{committed, Result, ok, err}
use sambung.Db.Schema.{
  BookingStatus, pending_payment, confirmed, occupying, is_pending, Booking, Db,
}
use sambung.Db.Bookings.{insert_booking}
use sambung.Db.Overlap.{has_id, insert_booking-Inserted}
use sambung.Booking.{set_status}
use sambung.Booking.Invariant.{BookingWrites}
use sambung.Payments.Keeps.{Writes}
use sambung.Payments.Webhook.{booking_by_id, is_confirmable, close_payment}
use sambung.Payments.Webhook.Keeps.{Stable}
use sambung.Payments.Webhook.Statuses.{confirm-find}

-- The booking is there, and is no longer pending_payment.
abbrev pub is_decided : Option Booking → Bool
is_decided none = false
is_decided (some b) = not (is_pending b.status)

abbrev pub Decided : ℕ → Db → Type 0
Decided id db = is_decided (booking_by_id id db.bookings) ≡ true

pub absent : (id : ℕ) (bs : List Booking) → has_id id bs ≡ false → booking_by_id id bs ≡ none
absent id [] h = refl
absent id (b ∷ bs) h = ground (arith, absent id bs)

inserted-Decided :
    (id : ℕ) (b : Booking) (bs : List Booking)
    → has_id b.id bs ≡ false
    → is_decided (booking_by_id id bs) ≡ true
    → is_decided (booking_by_id id (b ∷ bs)) ≡ true
inserted-Decided id b bs fresh h = elim (Bool-cases (b.id == id)) [
  | inl y ↦
      let gone : booking_by_id id bs ≡ none =
        absent id bs (rw (sym ((==_iff b.id id).0 y)) fresh) in
      absurd_decided (rw gone at h)
  | inr n ↦ rw n h
]
  where
    absurd_decided : {A : Type 0} → is_decided none ≡ true → A
    absurd_decided e = cc

freed-Decided :
    (q : Booking → Bool) (status : BookingStatus)
    → occupying status ≡ false
    → (o : Option Booking) → is_decided o ≡ true
    → is_decided (option_map (λ b. if q b then set_status status b else b) o) ≡ true
unfolding occupying
freed-Decided q status h none e = e
freed-Decided q status h (some b) e = elim (Bool-cases (q b)) [
  | inl y ↦ rw y (free status h)
  | inr n ↦ rw n e
]
  where
    free : (s : BookingStatus) → occupying s ≡ false → not (is_pending s) ≡ true
    free pending_payment h = cc
    free confirmed h = refl
    free BookingStatus.cancelled h = refl
    free BookingStatus.expired h = refl

pub Decided-BookingWrites : (id : ℕ) → BookingWrites (Decided id)
Decided-BookingWrites id = record {
  inserts = λ b. record { at = λ db h. inserted b db (insert_booking b db) refl h };
  frees = λ q status k db h.
      rw
        (find-map (λ b. b.id == id) (λ b. if q b then set_status status b else b)
          (λ b. ground arith) db.bookings)
        (freed-Decided q status k _ h);
}
  where
    inserted :
        (b : Booking) (db : Db) (r : Result (Booking × Db))
        → insert_booking b db ≡ r
        → Decided id db
        → Decided id (committed db r)
    inserted b db (ok (x, after)) e h =
        let i = insert_booking-Inserted b db e in
        rw i.added (inserted-Decided id b db.bookings i.fresh h)
    inserted b db (err x) e h = h

confirmed-Decided :
    (booking : ℕ) (o : Option Booking)
    → is_decided o ≡ true
    → is_decided
        (option_map (λ b. if is_confirmable booking b then set_status confirmed b else b) o)
      ≡ true
confirmed-Decided booking none h = h
confirmed-Decided booking (some b) h = ground arith

Decided-Stable : (id : ℕ) → Stable (Decided id)
unfolding close_payment
Decided-Stable id = record {
  events = λ es db h. h;
  closes = λ p status db h. h;
  confirms = λ booking db h. rw (confirm-find booking id db) (confirmed-Decided booking _ h);
}

pub Decided-Writes : (id : ℕ) → Writes (Decided id)
Decided-Writes id = record {
  bookings = Decided-BookingWrites id;
  webhook = Decided-Stable id;
  pays = λ ps db h. h;
}
