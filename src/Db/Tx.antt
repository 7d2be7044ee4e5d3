-- ===== src/Db/Tx.antt =====
-- A transaction returns a value and the new tables, or throws and leaves the tables as they were
-- (ROLLBACK). The errors are those of apps/api/src/common/db-error/conflicts.ts, the other HTTP
-- exceptions, and the constraint that a statement violated.
use sambung.Common.{ℕ, [], Bool, true, false, Option, none, some, List, ◌∷◌}
use sambung.Db.Schema.{BookingStatus, Db}

-- `BookingRefusalReason`
pub data RefusalReason : Type 0 where
  overlap min_stay max_guests unavailable archived : RefusalReason

pub data Constraint : Type 0 where
  booking_stay_nonempty booking_guest_count_positive booking_pkey booking_external_uid_uniq :
      Constraint
  booking_no_overlap booking_unit_tenant_fk payment_pkey payment_event_provider_event_uniq :
      Constraint
  sync_conflict_stay_nonempty sync_conflict_pkey : Constraint
  price_override_range_nonempty price_override_nightly_range price_override_pkey : Constraint
  price_override_no_overlap price_override_unit_tenant_fk booking_unit_fk : Constraint
  channel_connection_pkey channel_connection_unit_channel_uniq : Constraint
  channel_connection_unit_tenant_fk booking_channel_connection_fk : Constraint

pub data Error : Type 0 where
  not_found bad_request unauthorized internal_server_error : Error
  dates_unavailable : List RefusalReason → Error
  booking_not_cancellable : BookingStatus → Error
  booking_not_payable : BookingStatus → Error
  payments_not_configured price_override_overlap channel_already_connected : Error
  unit_has_bookings : ℕ → Error
  gateway_error : Error
  violates : Constraint → Error

pub data Result {ℓ} (A : Type ℓ) : Type ℓ where
  ok : A → Result A
  err : Error → Result A

abbrev pub Tx : Type 0 → Type 0
Tx A = Db → Result (A × Db)

infixl 5 ◌>>=◌ ◌>>◌
abbrev pub continue : {A B : Type 0} → Result (A × Db) → (A → Tx B) → Result (B × Db)
continue (ok (a, db)) f = f a db
continue (err e) f = err e

abbrev pub ◌>>=◌ : {A B : Type 0} → Tx A → (A → Tx B) → Tx B
◌>>=◌ m f db = continue (m db) f

abbrev pub ◌>>◌ : {A B : Type 0} → Tx A → Tx B → Tx B
m >> n = m >>= λ _. n

abbrev pub pure : {A : Type 0} → A → Tx A
pure a db = ok (a, db)

abbrev pub throw : {A : Type 0} → Error → Tx A
throw e db = err e

abbrev pub query : {A : Type 0} → (Db → A) → Tx A
query f db = ok (f db, db)

abbrev pub modify : (Db → Db) → Tx (Unit {0})
modify f db = ok (tt, f db)

abbrev pub guard : Bool → Error → Tx (Unit {0})
guard true e db = ok (tt, db)
guard false e db = err e

abbrev pub or_throw : {A : Type 0} → Option A → Error → Tx A
or_throw none e db = err e
or_throw (some a) e db = ok (a, db)

abbrev pub lift : {A : Type 0} → Result A → Tx A
lift (ok a) db = ok (a, db)
lift (err e) db = err e

abbrev pub read : {A : Type 0} → (Db → Result A) → Tx A
read f db = lift (f db) db

-- What the caller gets, and the tables after COMMIT or ROLLBACK.
abbrev pub reply : {A : Type 0} → Db → Result (A × Db) → Result A
reply db (ok (a, after)) = ok a
reply db (err e) = err e

abbrev pub committed : {A : Type 0} → Db → Result (A × Db) → Db
committed db (ok (a, after)) = after
committed db (err e) = db

-- `mapDbError`, as the exception filter applies it: a violated `booking_no_overlap` is the 409 of the
-- re-check, and so are those of the overrides and of the feeds; any other violation of the modelled constraints stays a 500.
unfoldable pub map_db_error : Error → Error
map_db_error (violates booking_no_overlap) = dates_unavailable (overlap ∷ [])
map_db_error (violates channel_connection_unit_channel_uniq) = channel_already_connected
map_db_error (violates price_override_no_overlap) = price_override_overlap
map_db_error (violates _) = internal_server_error
map_db_error e = e
