-- ===== src/System/Notified.antt =====
-- The confirmation of a booking is notified at most once in any run, whatever deliveries, visits and
-- cancellations come in whatever order.
use sambung.Common.{
  ℕ, ◌+◌, ◌≤◌, ◌≡◌, refl, ◌∙◌, ◌⊎◌, inl, inr, String, Bool, List, [], ◌∷◌, ◌++◌, arith,
}
use sambung.Db.Tx.{committed, Result, ok, err}
use sambung.Db.Schema.{Db}
use sambung.Db.Overlap.{IsConsistent}
use sambung.Payments.Decided.{Decided, Decided-Writes}
use sambung.Payments.Webhook.{handle}
use sambung.Payments.Webhook.Emits.{times, Notifies, Good, handle-Emits}
use sambung.Payments.Confirmation.Emits.{get_confirmation-Notifies}
use sambung.System.{
  notified_by, Step, checkout, owner_booking, cancellation, tick, payment_started, delivery,
  page_visit, Run, start, next,
}
use sambung.System.Consistent.{IsConsistent-Writes, Step-keeps, Run-keeps}

times-++ : (id : ℕ) (xs ys : List ℕ) → times id (xs ++ ys) ≡ times id xs + times id ys
times-++ id [] ys = omega arith
times-++ id (x ∷ xs) ys = omega (arith, times-++ id xs ys)

delivered :
    (db : Db) (r : Result (List ℕ × Db)) → Good db r → Notifies db (notified_by r) (committed db r)
delivered db (ok (ns, after)) h id = h id
delivered db (err e) h id = inl refl

module _ {Body : Type 0} (is_url : String → Bool) where
  Step-Notifies :
      {db after : Db} {ns : List ℕ}
      → Step Body is_url db ns after
      → IsConsistent db
      → Notifies db ns after
  Step-Notifies (checkout gateway now id req) h = λ i. inl refl
  Step-Notifies (owner_booking tenant now id req) h = λ i. inl refl
  Step-Notifies (cancellation tenant id) h = λ i. inl refl
  Step-Notifies (tick now) h = λ i. inl refl
  Step-Notifies (payment_started gateway now id booking) h = λ i. inl refl
  Step-Notifies {db} (delivery gateway provider body) h =
      delivered db (handle gateway provider body db)
        ((handle-Emits gateway provider body).at db h.unique_ids)
  Step-Notifies {db} (page_visit gateway now booking) h =
      get_confirmation-Notifies gateway now booking db h.unique_ids

  -- Until it is notified it is notified zero times; from then on it is decided.
  Run-notified :
      {db after : Db} {ns : List ℕ} (id : ℕ)
      → IsConsistent db
      → Run Body is_url db ns after
      → (times id ns ≡ 0) ⊎ ((times id ns ≡ 1) × Decided id after)
  Run-notified id h start = inl refl
  Run-notified id h (next {notified} {more} {mid} {after} run step) = elim (Run-notified id h run) [
    | inl zero_times ↦ elim (Step-Notifies step (Run-keeps is_url IsConsistent-Writes run h) id) [
      | inl z ↦ inl (times-++ id more notified ∙ omega (arith, z, zero_times))
      | inr (one, before, decided) ↦
          inr (times-++ id more notified ∙ omega (arith, one, zero_times), decided)
    ]
    | inr (once, was) ↦ elim (Step-Notifies step (Run-keeps is_url IsConsistent-Writes run h) id) [
      | inl z ↦ inr (
        times-++ id more notified ∙ omega (arith, z, once),
        Step-keeps is_url (Decided-Writes id) step was,
      )
      | inr (one, before, decided) ↦ cc
    ]
  ]

  -- From consistent tables, in any sequence of checkouts, owner bookings, cancels, sweeps, pays,
  -- webhook deliveries and page visits, the confirmation of a booking is notified at most once.
  pub Run-times :
      {db after : Db} {ns : List ℕ} (id : ℕ)
      → IsConsistent db
      → Run Body is_url db ns after
      → times id ns ≤ 1
  Run-times id h run = elim (Run-notified id h run) [
    | inl z ↦ omega (arith, z)
    | inr (one, d) ↦ omega (arith, one)
  ]
