-- ===== src/Booking/Sweep.antt =====
-- The cron of apps/api/src/bookings/hold-sweeper.service.ts, after another of its ticks.
use sambung.Common.{
  Bool-cases, inl, inr, select-none, update-none, any-update, ℕ, ◌≤◌, ◌≡◌, refl, sym, subst, false,
  Option, none, some, any, arith,
}
use sambung.Db.Tx.{ok}
use sambung.Db.Schema.{Booking, is_pending, expired, Db}
use sambung.Db.Bookings.{update_where}
use sambung.Booking.{before, is_lapsed, set_status, sweep_expired_holds}

expired_row : (now : ℕ) (b : Booking) → is_lapsed now (set_status expired b) ≡ false
unfolding is_lapsed
expired_row now b = refl

before_later :
    (now later : ℕ) (o : Option ℕ) → now ≤ later → before o later ≡ false → before o now ≡ false
before_later now later none le h = refl
before_later now later (some t) le h = ground arith

lapsed_later :
    (now later : ℕ) (b : Booking)
    → now ≤ later
    → is_lapsed later b ≡ false
    → is_lapsed now b ≡ false
unfolding is_lapsed
lapsed_later now later b le h = elim (Bool-cases (is_pending b.status)) [
  | inl y ↦ rw (y, before_later now later b.hold_expires_at le (rw y at h)) refl
  | inr n ↦ rw n refl
]

-- After a tick of the hold sweeper, a tick at the same or an earlier moment sweeps no hold and
-- changes nothing.
pub sweep_again :
    (now later swept : ℕ) (db : Db) {after : Db}
    → now ≤ later
    → sweep_expired_holds later db ≡ ok (swept, after)
    → sweep_expired_holds now after ≡ ok (0, after)
unfolding sweep_expired_holds
sweep_again now later swept db {after} le e =
    let done : Db = record db {
      bookings = update_where (is_lapsed later) (set_status expired) db.bookings;
    } in
    let same : after ≡ done = cc in
    let clear : any (is_lapsed now) after.bookings ≡ false =
      subst (λ d. any (is_lapsed now) d.bookings ≡ false) (sym same)
        (any-update (is_lapsed later) (is_lapsed now) (set_status expired) (expired_row now)
          (λ b h. lapsed_later now later b le h) db.bookings) in
    rw
      (
        select-none (is_lapsed now) after.bookings clear,
        update-none (is_lapsed now) (set_status expired) after.bookings clear,
      )
      refl
