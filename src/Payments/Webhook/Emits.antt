-- ===== src/Payments/Webhook/Emits.antt =====
-- What a delivery notifies (apps/api/src/payments/payment-webhook.service.ts).
use sambung.Common.{
  find_sound, ℕ, ◌+◌, ◌≡◌, refl, sym, subst, ◌⊎◌, inl, inr, String, Bool, true, false, Option, none,
  some, List, [], ◌∷◌, ◌==◌, if◌then◌else◌, any, arith, Bool-cases, ==_iff,
}
use sambung.Db.Tx.{
  Result, ok, err, Error, Tx, ◌>>=◌, ◌>>◌, pure, guard, or_throw, lift, read, continue,
}
use sambung.Db.Schema.{is_pending, Booking, Db}
use sambung.Db.Overlap.{UniqueIds, has_id}
use sambung.Payments.{GatewayCredential, ParsedPaymentEvent, Gateway}
use sambung.Payments.Decided.{is_decided, Decided}
use sambung.Payments.Webhook.{
  booking_by_id, is_confirmable, confirm_booking, deliver, handle_with, handle, pulled, pull_with,
  reconcile,
}
use sambung.Payments.Webhook.Effect.{Effect, no_change, failed_only, paid_up, deliver-Effect}
use sambung.Payments.Webhook.Statuses.{confirm-find}

-- How often the list names the booking.
abbrev pub times : ℕ → List ℕ → ℕ
times id [] = 0
times id (n ∷ ns) = (if n == id then 1 else 0) + times id ns

-- A booking is notified once, and then it was undecided before and is decided after; or not at all.
abbrev pub Notifies : Db → List ℕ → Db → Type 0
Notifies db ns after =
    (id : ℕ)
    → (times id ns ≡ 0)
      ⊎ ((times id ns ≡ 1) × (is_decided (booking_by_id id db.bookings) ≡ false) × Decided id after)

live_undecided :
    (id : ℕ) (bs : List Booking)
    → UniqueIds bs
    → any (is_confirmable id) bs ≡ true
    → (b : Booking) × (booking_by_id id bs ≡ some b) × (is_pending b.status ≡ true)
unfolding is_confirmable
live_undecided id [] u h = cc
live_undecided id (b ∷ bs) u h = elim (Bool-cases (b.id == id)) [
  | inl y ↦ (b, rw y refl, first y)
  | inr n ↦ let (c, e, p) = live_undecided id bs u.1 (ground (arith, h, n)) in (c, rw n e, p)
]
  where
    other : (bs : List Booking) → has_id id bs ≡ false → any (is_confirmable id) bs ≡ false
    other [] h = refl
    other (c ∷ cs) h = ground (arith, other cs)

    first : b.id == id ≡ true → is_pending b.status ≡ true
    first y = ground (arith, other bs (rw (sym ((==_iff b.id id).0 y)) u.0), h, y)

confirmed-Decided :
    (id : ℕ) (db : Db) {b : Booking}
    → booking_by_id id db.bookings ≡ some b
    → is_pending b.status ≡ true
    → is_decided (booking_by_id id (confirm_booking id db).bookings) ≡ true
unfolding is_confirmable
confirmed-Decided id db e p =
    rw (confirm-find id id db, e) (rw (find_sound (λ b. b.id == id) db.bookings e, p) refl)

Effect-Notifies :
    (event : ParsedPaymentEvent) (db : Db) {ns : List ℕ} {after : Db}
    → UniqueIds db.bookings
    → Effect event db ns after
    → Notifies db ns after
Effect-Notifies event db u (no_change b p) id = inl refl
Effect-Notifies event db u (failed_only o b p) id = inl refl
Effect-Notifies event db {after = after} u (paid_up booking s n bookings p) id =
    rw n (elim (Bool-cases (any (is_confirmable booking) db.bookings)) [
      | inr x ↦ rw x (inl refl)
      | inl y ↦ rw y (elim (Bool-cases (booking == id)) [
        | inr x ↦ inl (rw x refl)
        | inl same ↦
            let (b, e, pending) = live_undecided booking db.bookings u y in
            let k = (==_iff booking id).0 same in
            inr (
              rw same refl,
              subst (λ i. is_decided (booking_by_id i db.bookings) ≡ false) k
                  (rw (e, pending) refl),
              subst (λ i. Decided i after) k (rw bookings (confirmed-Decided booking db e pending)),
            )
      ])
    ])

abbrev pub Good : Db → Result (List ℕ × Db) → Type 0
Good db (ok (ns, after)) = Notifies db ns after
Good db (err e) = Unit

pub record Emits (m : Tx (List ℕ)) : Type 0 where
  pub at : (db : Db) → UniqueIds db.bookings → Good db (m db)

Emits-none : Emits (pure [])
Emits-none = record { at = λ db u id. inl refl }

Emits-guard : (b : Bool) (e : Error) (m : Tx (List ℕ)) → Emits m → Emits (guard b e >> m)
Emits-guard true e m h = record { at = λ db u. h.at db u }
Emits-guard false e m h = record { at = λ db u. tt }

module _ {A : Type 0} (f : A → Tx (List ℕ)) (h : (a : A) → Emits (f a)) where
  Emits-read : (g : Db → Result A) → Emits (read g >>= f)
  Emits-read g = record { at = λ db u. taken db (g db) u }
    where
      taken : (db : Db) (r : Result A) → UniqueIds db.bookings → Good db (continue (lift r db) f)
      taken db (ok a) u = (h a).at db u
      taken db (err e) u = tt

  Emits-or_throw : (o : Option A) (e : Error) → Emits (or_throw o e >>= f)
  Emits-or_throw none e = record { at = λ db u. tt }
  Emits-or_throw (some a) e = record { at = λ db u. (h a).at db u }

  Emits-lift : (r : Result A) → Emits (lift r >>= f)
  Emits-lift (ok a) = record { at = λ db u. (h a).at db u }
  Emits-lift (err e) = record { at = λ db u. tt }

deliver-Emits : (provider : String) (event : ParsedPaymentEvent) → Emits (deliver provider event)
deliver-Emits provider event = record { at = λ db u. good db u (deliver provider event db) refl }
  where
    good :
        (db : Db)
        → UniqueIds db.bookings
        → (r : Result (List ℕ × Db)) → deliver provider event db ≡ r
        → Good db r
    good db u (ok (ns, after)) e = Effect-Notifies event db u (deliver-Effect provider event db e)
    good db u (err x) e = tt

module _ {Body : Type 0} (gateway : Gateway Body) where
  handle_with-Emits :
      (body : Body) (o : Option GatewayCredential) → Emits (handle_with gateway body o)
  unfolding handle_with
  handle_with-Emits body none = Emits-none
  handle_with-Emits body (some c) =
      Emits-lift _ (deliver-Emits gateway.provider) (gateway.verify_and_parse body c)

  pub handle-Emits : (provider : String) (body : Body) → Emits (handle gateway provider body)
  unfolding handle
  handle-Emits provider body =
      search (Emits-guard, Emits-or_throw, Emits-read, handle_with-Emits) depth 8

  pulled-Emits : (o : Option ParsedPaymentEvent) → Emits (pulled gateway o)
  unfolding pulled
  pulled-Emits none = Emits-none
  pulled-Emits (some event) = deliver-Emits gateway.provider event

  pull_with-Emits : (order : ℕ) (o : Option GatewayCredential) → Emits (pull_with gateway order o)
  unfolding pull_with
  pull_with-Emits order none = Emits-none
  pull_with-Emits order (some c) = Emits-lift _ pulled-Emits (gateway.fetch_status order c)

  pub reconcile-Emits : (order : ℕ) → Emits (reconcile gateway order)
  unfolding reconcile
  reconcile-Emits order = Emits-read _ (pull_with-Emits order) _
